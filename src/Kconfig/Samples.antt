-- ===== src/Kconfig/Samples.antt =====
-- A small store of symbols for tests of scripts/kconfig/symbol.c.
use lightbuild.Prelude.{
  ◌<◌, arith, zero, suc, refl, true, false, none, some, [], ◌∷◌, Bytes, codes, ◌≡◌, ◌≢◌,
}
use lightbuild.Kconfig.Tristate.{Tristate, tri_no, tri_mod, tri_yes}
use lightbuild.Kconfig.Symbol.{
  SymbolType, unknown, boolean, tristate, hex, constant_symbol, symbol_of, IsCalculated, Sym,
}
use lightbuild.Kconfig.Lookup.{SymbolTable}
use lightbuild.Kconfig.Store.{UserSymbol, Store, table}
use lightbuild.Kconfig.Calc.Keeps.{left, left_in, IsClosed, NonePending, NoBooleanMod}
use lightbuild.Kconfig.Assign.Ready.{IsIdle}

-- A visible symbol of this type.
abbrev pub visible_symbol : SymbolType → Bytes → UserSymbol
visible_symbol ty val = record {
  curr = record { name = some (codes "FOO"); type = ty; val = val; tri = tri_no; is_const = false };
  curr_choice = none;
  val_at = 0;
  visible = tri_yes;
  dir_dep = tri_yes;
  rev_dep = tri_no;
  implied = tri_no;
  is_choice = false;
  is_choice_value = false;
  is_valid = false;
  is_changed = false;
  is_write = false;
  is_no_write = false;
  needs_choice_values = false;
  is_set = false;
  def_val = none;
  def_at = 0;
  def_tri = tri_no;
  def_choice = none;
  name_at = 2;
  choice = 0;
  members = [];
  prompts = none ∷ [];
  defaults = [];
  ranges = [];
  dir_dep_expr = none;
  rev_dep_expr = none;
  implied_expr = none;
  menus = 7 ∷ [];
}

-- A constant symbol.
abbrev pub constant_user : Tristate → UserSymbol
constant_user v = record (visible_symbol unknown []) {
  curr = constant_symbol v;
  is_valid = true;
  prompts = [];
}

-- A TRISTATE symbol and a HEX symbol, with MODULES set, behind the three constants.
abbrev pub two_get : Sym → UserSymbol
two_get zero = constant_user tri_no
two_get (suc zero) = constant_user tri_mod
two_get (suc (suc zero)) = constant_user tri_yes
two_get (suc (suc (suc zero))) = visible_symbol tristate (codes "n")
two_get (suc (suc (suc (suc zero)))) = visible_symbol hex (codes "0x0")
two_get (suc (suc (suc (suc (suc zero))))) = record (visible_symbol boolean (codes "n")) {
  is_set = true;
  def_tri = tri_yes;
}
two_get _ = constant_user tri_no

abbrev pub two_symbols : Store
two_symbols = record {
  get = two_get;
  symbols = 3 ∷ 4 ∷ 5 ∷ [];
  modules_sym = 5;
  modules_val = tri_yes;
  menu_changed = λ m. false;
  sym_change_count = 0;
  fresh = 10;
}

two_symbols-IsClosed : IsClosed two_symbols
two_symbols-IsClosed zero h = refl
two_symbols-IsClosed (suc zero) h = refl
two_symbols-IsClosed (suc (suc zero)) h = refl
two_symbols-IsClosed (suc (suc (suc zero))) h = absurd (cc)
two_symbols-IsClosed (suc (suc (suc (suc zero)))) h = absurd (cc)
two_symbols-IsClosed (suc (suc (suc (suc (suc zero))))) h = absurd (cc)
two_symbols-IsClosed (suc (suc (suc (suc (suc (suc n)))))) h = refl

two_symbols-NonePending : NonePending two_symbols
two_symbols-NonePending zero = refl
two_symbols-NonePending (suc zero) = refl
two_symbols-NonePending (suc (suc zero)) = refl
two_symbols-NonePending (suc (suc (suc zero))) = refl
two_symbols-NonePending (suc (suc (suc (suc zero)))) = refl
two_symbols-NonePending (suc (suc (suc (suc (suc zero))))) = refl
two_symbols-NonePending (suc (suc (suc (suc (suc (suc n)))))) = refl

pub two_symbols-IsIdle : IsIdle two_symbols
two_symbols-IsIdle = (two_symbols-IsClosed, two_symbols-NonePending)

pub two_symbols-NoBooleanMod : NoBooleanMod two_symbols
two_symbols-NoBooleanMod zero b e = cc
two_symbols-NoBooleanMod (suc zero) b e = cc
two_symbols-NoBooleanMod (suc (suc zero)) b e = cc
two_symbols-NoBooleanMod (suc (suc (suc zero))) b e = cc
two_symbols-NoBooleanMod (suc (suc (suc (suc zero)))) b e = cc
two_symbols-NoBooleanMod (suc (suc (suc (suc (suc zero))))) b e = cc
two_symbols-NoBooleanMod (suc (suc (suc (suc (suc (suc n)))))) b e = cc

two_modules_off :
    (s : Sym) → (two_get s).curr.type ≡ tristate → tri_no ≡ tri_no → (two_get s).curr.tri ≢ tri_mod
two_modules_off zero b c e = cc
two_modules_off (suc zero) b c e = cc
two_modules_off (suc (suc zero)) b c e = cc
two_modules_off (suc (suc (suc zero))) b c e = cc
two_modules_off (suc (suc (suc (suc zero)))) b c e = cc
two_modules_off (suc (suc (suc (suc (suc zero))))) b c e = cc
two_modules_off (suc (suc (suc (suc (suc (suc n)))))) b c e = cc

two_constants : (v : Tristate) → (two_get (symbol_of v)).curr ≡ constant_symbol v
two_constants tri_no = refl
two_constants tri_mod = refl
two_constants tri_yes = refl

pub two_symbols-IsCalculated : IsCalculated (table two_symbols)
two_symbols-IsCalculated = record {
  constants = two_constants;
  boolean_mod = two_symbols-NoBooleanMod;
  modules_off = two_modules_off;
}

pub two_symbols-left : left two_symbols < 4
unfolding left_in
two_symbols-left = omega arith

-- Both symbols stand in every bucket.
abbrev pub two_names : SymbolTable
two_names = record {
  symbol_hash = λ h.
      record { address = 3; name = some (codes "FOO"); flags = 0 }
      ∷ record { address = 4; name = some (codes "BAR"); flags = 0 }
      ∷ [];
  fresh = 10;
}
