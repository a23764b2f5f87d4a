-- ===== src/Kconfig/Store.antt =====
-- `struct symbol`, its properties and the table of symbols of scripts/kconfig/expr.h, as the
-- functions of symbol.c that calculate and set values share them.
use lightbuild.Prelude.{
  ℕ, Bool, true, false, ◌&&◌, ◌||◌, Option, List, [], ◌∷◌, Bytes, ◌==◌, if◌then◌else◌,
}
use lightbuild.Kconfig.Tristate.{Tristate, tri_no, tri_yes, tri_eq}
use lightbuild.Kconfig.Symbol.{SymbolType, boolean, tristate, type_eq, Symbol, Sym, Table}
use lightbuild.Kconfig.Expr.{Expr}

-- A property of type P_RANGE: its condition and the two symbols of its expression.
pub record Range : Type 0 where
  pub condition : Option Expr
  pub low : Sym
  pub high : Sym

-- A property of type P_DEFAULT: its condition and its expression.
pub record DefaultProp : Type 0 where
  pub condition : Option Expr
  pub value : Option Expr

-- `struct symbol`:
-- what has been calculated: `curr` (for a choice that has a value, `curr.val` is the symbol
-- `curr_choice`), `visible`, and the values of `dir_dep`, `rev_dep` and `implied`;
-- the flags CHOICE, CHOICEVAL, VALID, CHANGED, WRITE, NO_WRITE, NEED_SET_CHOICE_VALUES and DEF_USER;
-- `def[S_DEF_USER]` (a string, a tristate and, for a choice, a symbol);
-- the properties: the choice that a choice value belongs to, the values that a choice lists, the
-- conditions of the prompts, the defaults, the ranges, and the menus of all of them.
-- `val_at`, `def_at` and `name_at` are the addresses of the strings.
pub record UserSymbol : Type 0 where
  pub curr : Symbol
  pub curr_choice : Option Sym
  pub val_at : ℕ
  pub visible : Tristate
  pub dir_dep : Tristate
  pub rev_dep : Tristate
  pub implied : Tristate
  pub is_choice : Bool
  pub is_choice_value : Bool
  pub is_valid : Bool
  pub is_changed : Bool
  pub is_write : Bool
  pub is_no_write : Bool
  pub needs_choice_values : Bool
  pub is_set : Bool
  pub def_val : Option Bytes
  pub def_at : ℕ
  pub def_tri : Tristate
  pub def_choice : Option Sym
  pub name_at : ℕ
  pub choice : Sym
  pub members : List Sym
  pub prompts : List (Option Expr)
  pub defaults : List DefaultProp
  pub ranges : List Range
  pub dir_dep_expr : Option Expr
  pub rev_dep_expr : Option Expr
  pub implied_expr : Option Expr
  pub menus : List ℕ

-- The symbols by address, those in `symbol_hash` in the order of for_all_symbols, `modules_sym`,
-- `modules_val`, the flag MENU_CHANGED of each menu, `sym_change_count` and the address that the
-- next allocation gives.
pub record Store : Type 0 where
  pub get : Sym → UserSymbol
  pub symbols : List Sym
  pub modules_sym : Sym
  pub modules_val : Tristate
  pub menu_changed : ℕ → Bool
  pub sym_change_count : ℕ
  pub fresh : ℕ

-- What expressions read.
abbrev pub table : Store → Table
table s = record { get = λ y. (s.get y).curr; modules_sym = s.modules_sym }

-- sym_get_type, with what it reads of a symbol.
unfoldable pub type_in : UserSymbol → Tristate → SymbolType
type_in u modules_val =
    if type_eq u.curr.type tristate
    then if u.is_choice_value && tri_eq u.visible tri_yes
      then boolean
      else if tri_eq modules_val tri_no
      then boolean
      else u.curr.type
    else u.curr.type

unfoldable pub sym_get_type : Store → Sym → SymbolType
sym_get_type s x = type_in (s.get x) s.modules_val

-- A write to one symbol.
abbrev pub update : Store → Sym → (UserSymbol → UserSymbol) → Store
update s x f = record s { get = λ y. if y == x then f (s.get y) else s.get y }

abbrev pub with_set : UserSymbol → UserSymbol
with_set u = record u { is_set = true }

abbrev pub with_changed : UserSymbol → UserSymbol
with_changed u = record u { is_changed = true }

abbrev pub with_invalid : UserSymbol → UserSymbol
with_invalid u = record u { is_valid = false }

abbrev pub with_def : Option Bytes → Tristate → Option Sym → UserSymbol → UserSymbol
with_def val tri choice u = record u { def_val = val; def_tri = tri; def_choice = choice }

abbrev pub among : ℕ → List ℕ → Bool
among m [] = false
among m (n ∷ ns) = n == m || among m ns

unfoldable pub sym_set_changed : Sym → Store → Store
sym_set_changed x s = record (update s x with_changed) {
  menu_changed = λ m. s.menu_changed m || among m (s.get x).menus;
}
