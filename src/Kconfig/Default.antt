-- ===== src/Kconfig/Default.antt =====
-- sym_get_default_prop and sym_get_string_default of scripts/kconfig/symbol.c, where the symbols
-- that they read and their visibility have been calculated.
pub mod Bounds
use lightbuild.Prelude.{
  ℕ, Bool, true, false, ◌&&◌, ◌||◌, Option, none, some, List, [], ◌∷◌, Bytes, ltb, if◌then◌else◌,
}
use lightbuild.Kconfig.Tristate.{
  Tristate, tri_no, tri_mod, tri_yes, rank, tri_eq, expr_and, expr_or,
}
use lightbuild.Kconfig.Symbol.{
  SymbolType, unknown, boolean, tristate, int, hex, string, type_eq, letter, Sym, Symbol, Table,
}
use lightbuild.Kconfig.Expr.{Expr, symbol}
use lightbuild.Kconfig.Store.{DefaultProp}
use lightbuild.Kconfig.Expr.Value.{calc_value}

-- `struct symbol` as far as these functions read it.
pub record DefaultSymbol : Type 0 where
  pub type : SymbolType
  pub rev_dep : Tristate
  pub implied : Tristate
  pub is_choice_value : Bool
  pub defaults : List DefaultProp

-- The first default whose condition is not `n`.
unfoldable pub sym_get_default_prop : Table → List DefaultProp → Option DefaultProp
sym_get_default_prop t [] = none
sym_get_default_prop t (prop ∷ next) =
    let later = sym_get_default_prop t next in
    if tri_eq (calc_value t prop.condition) tri_no then later else some prop

-- A default is no list, the other expression that prop_get_symbol takes.
unfoldable pub prop_get_symbol : DefaultProp → Option Sym
prop_get_symbol prop = elim prop.value [
  | none ↦ none
  | some e ↦ elim e [ symbol s ↦ some s | _ ↦ none ]
]

abbrev pub is_tristate_like : SymbolType → Bool
is_tristate_like type = type_eq type boolean || type_eq type tristate

-- The value of a BOOLEAN or TRISTATE symbol's default, and `n` for another one.
unfoldable pub default_val : Table → SymbolType → Option DefaultProp → Tristate
default_val t type none = tri_no
default_val t type (some prop) =
    if is_tristate_like type
    then expr_and (calc_value t prop.value) (calc_value t prop.condition)
    else tri_no

abbrev pub symbol_str : Table → Option Sym → Bytes
symbol_str t none = []
symbol_str t (some ds) = (t.get ds).val

-- The string of another symbol's default, and the empty one without.
unfoldable pub default_str : Table → SymbolType → Option DefaultProp → Bytes
default_str t type none = []
default_str t type (some prop) =
    if is_tristate_like type then [] else symbol_str t (prop_get_symbol prop)

-- mod becomes yes where modules are off, unless the symbol is a choice value.
unfoldable pub without_modules : Tristate → Bool → Tristate → Tristate
without_modules modules is_choice_value val =
    if tri_eq val tri_mod && ((if is_choice_value then false else true) && tri_eq modules tri_no)
    then tri_yes
    else val

-- mod becomes yes for a BOOLEAN symbol.
unfoldable pub without_mod : SymbolType → Tristate → Tristate
without_mod type val = if type_eq type boolean && tri_eq val tri_mod then tri_yes else val

unfoldable pub at_least : Tristate → Tristate → Tristate
at_least implied val = if ltb (rank val) (rank implied) then implied else val

-- `val` behind its last adjustment.
unfoldable pub adjusted : Table → DefaultSymbol → Tristate
adjusted t s = at_least s.implied (
    without_mod s.type (
      without_modules (t.get t.modules_sym).tri s.is_choice_value
        (expr_or (default_val t s.type (sym_get_default_prop t s.defaults)) s.rev_dep)))

abbrev pub result_of : SymbolType → Tristate → Bytes → Bytes
result_of boolean val str = letter val
result_of tristate val str = letter val
result_of int val str = str
result_of hex val str = str
result_of string val str = str
result_of unknown val str = []

unfoldable pub sym_get_string_default : Table → DefaultSymbol → Bytes
sym_get_string_default t s =
    result_of s.type (adjusted t s) (default_str t s.type (sym_get_default_prop t s.defaults))
