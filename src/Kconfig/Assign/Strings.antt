-- ===== src/Kconfig/Assign/Strings.antt =====
-- sym_get_range_prop, sym_get_range_val, sym_string_within_range and sym_set_string_value of
-- scripts/kconfig/symbol.c, where the symbols that they read have been calculated.
pub mod Stored
use lightbuild.Prelude.{
  ℕ, suc, Bool, true, false, ◌&&◌, ◌||◌, Option, none, some, List, [], ◌∷◌, ◌++◌, Bytes, leb, ltb,
  ◌==◌, if◌then◌else◌, streq, first, rest,
}
use lightbuild.Kconfig.Tristate.{Tristate, tri_no, tri_mod, tri_yes, tri_eq}
use lightbuild.Kconfig.Symbol.{
  SymbolType, unknown, boolean, tristate, int, hex, string, type_eq, Symbol, Sym, Table,
}
use lightbuild.Kconfig.Strto.{Number, strtoll, signed_key}
use lightbuild.Kconfig.StringValid.{is_letter, sym_string_valid}
use lightbuild.Kconfig.Expr.Value.{calc_value}
use lightbuild.Kconfig.Store.{table, Range, UserSymbol, Store, update, with_def}
use lightbuild.Kconfig.Assign.{
  sym_tristate_within_range, mark_set, SetResult, sym_clear_all_valid, sym_set_tristate_value,
}

-- The loop of sym_get_range_prop: the first range whose condition is not `n`.
abbrev pub active_range : Table → List Range → Option Range
active_range t [] = none
active_range t (prop ∷ next) =
    if tri_eq (calc_value t prop.condition) tri_no then active_range t next else some prop

unfoldable pub sym_get_range_prop : Store → Sym → Option Range
sym_get_range_prop s x = active_range (table s) (s.get x).ranges

abbrev pub range_base : SymbolType → ℕ → ℕ
range_base int base = 10
range_base hex base = 16
range_base _ base = base

-- A `long long`, as its bit pattern.
unfoldable pub sym_get_range_val : Store → Sym → ℕ → ℕ
sym_get_range_val s x base =
    (strtoll (range_base (s.get x).curr.type base) (s.get x).curr.val).value

abbrev pub in_range : Store → ℕ → Bytes → Option Range → Bool
in_range s base str none = true
in_range s base str (some prop) =
    let val = signed_key (strtoll base str).value in
    leb (signed_key (sym_get_range_val s prop.low base)) val
    && leb val (signed_key (sym_get_range_val s prop.high base))

-- The first letter of a value, in either case.
abbrev pub letter_value : Bytes → Option Tristate
letter_value str =
    if is_letter b'y' b'Y' (first str)
    then some tri_yes
    else if is_letter b'm' b'M' (first str)
    then some tri_mod
    else if is_letter b'n' b'N' (first str)
    then some tri_no
    else none

abbrev pub letter_within : Store → Sym → Option Tristate → Bool
letter_within s x none = false
letter_within s x (some v) = sym_tristate_within_range s x v

abbrev pub string_within : SymbolType → Store → Sym → Bytes → Bool
string_within string s x str = sym_string_valid string str
string_within int s x str = sym_string_valid int str && in_range s 10 str (sym_get_range_prop s x)
string_within hex s x str = sym_string_valid hex str && in_range s 16 str (sym_get_range_prop s x)
string_within boolean s x str = letter_within s x (letter_value str)
string_within tristate s x str = letter_within s x (letter_value str)
string_within unknown s x str = false

unfoldable pub sym_string_within_range : Store → Sym → Bytes → Bool
sym_string_within_range s x str = string_within (s.get x).curr.type s x str

-- newval[0] != '0' || (newval[1] != 'x' && newval[1] != 'X'), for a HEX symbol.
unfoldable pub needs_prefix : SymbolType → Bytes → Bool
needs_prefix type newval =
    type_eq type hex
    && (if first newval == b'0' && (first (rest newval) == b'x' || first (rest newval) == b'X')
        then false
        else true)

abbrev pub is_old : Option Bytes → Bytes → Bool
is_old none newval = false
is_old (some oldval) newval = streq oldval newval

abbrev pub write_string : Sym → Bytes → Store → Store
write_string x val s =
    update (record s { fresh = suc s.fresh }) x
      (λ u. record (with_def (some val) u.def_tri u.def_choice u) { def_at = s.fresh })

module _ (sym_calc_value : Sym → Store → Store) where
  -- What follows the test of the range.
  unfoldable pub assign_string : Sym → Bytes → Store → Store
  assign_string x newval s =
      let marked = mark_set x s in
      if needs_prefix (s.get x).curr.type newval
      then sym_clear_all_valid sym_calc_value (write_string x (b'0' ∷ b'x' ∷ newval) marked)
      else if is_old (marked.get x).def_val newval
      then marked
      else sym_clear_all_valid sym_calc_value (write_string x newval marked)

  abbrev pub set_letter : Store → Sym → Option Tristate → SetResult
  set_letter s x none = record { ok = false; store = s }
  set_letter s x (some v) = sym_set_tristate_value sym_calc_value s x v

  unfoldable pub sym_set_string_value : Store → Sym → Bytes → SetResult
  sym_set_string_value s x newval =
      if type_eq (s.get x).curr.type boolean || type_eq (s.get x).curr.type tristate
      then set_letter s x (letter_value newval)
      else if sym_string_within_range s x newval
      then record { ok = true; store = assign_string x newval s }
      else record { ok = false; store = s }
