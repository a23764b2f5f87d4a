-- ===== src/Kconfig/ConfCheck.antt =====
-- conf_read of scripts/kconfig/confdata.c: the user's configuration is read, and what it says is checked
-- against the calculated values. A symbol of type STRING, INT or HEX that is set is taken to have a string.
pub mod Ends
pub mod Checks
pub mod Total
pub mod Checked
mod Tests
use lightbuild.Prelude.{
  ℕ, suc, ◌+◌, Bool, true, false, ◌&&◌, ◌||◌, Option, none, some, List, [], ◌∷◌, Bytes, leb, ◌==◌,
  if◌then◌else◌, streq,
}
use lightbuild.Kconfig.Tristate.{tri_eq}
use lightbuild.Kconfig.Symbol.{
  SymbolType, unknown, boolean, tristate, int, hex, string, Sym, Symbol,
}
use lightbuild.Kconfig.Strto.{strtoll, signed_key}
use lightbuild.Kconfig.StringValid.{sym_string_valid}
use lightbuild.Kconfig.Default.{is_tristate_like}
use lightbuild.Kconfig.Store.{Range, UserSymbol, Store}
use lightbuild.Kconfig.Lookup.{SymbolTable}
use lightbuild.Kconfig.Monad.{M, pure, ◌>>=◌, ◌>>◌, read, write, set, when}
use lightbuild.Kconfig.Calc.{user, is_no, negate, range_prop, range_val}
use lightbuild.Kconfig.Calc.Value.{calc_fuel}
use lightbuild.Kconfig.ConfRead.{Reader, is_text, conf_read_simple}
use lightbuild.Kconfig.ConfOpen.{Outside, open_conf}

-- The value that was saved is the one that has been calculated.
abbrev pub same_saved : UserSymbol → Bool
same_saved u =
    if is_tristate_like u.curr.type
    then tri_eq u.def_tri u.curr.tri
    else elim u.def_val [ none ↦ false | some v ↦ streq u.curr.val v ]

-- The file does not say of the symbol what will be written.
abbrev pub is_unsaved : UserSymbol → Bool
is_unsaved u =
    if u.is_choice || u.is_no_write
    then false
    else if u.is_set && u.is_write
    then negate (same_saved u)
    else u.is_set || u.is_write

abbrev pub count_if : Bool → ℕ → ℕ
count_if b n = if b then suc n else n

-- The two comparisons of sym_string_within_range.
abbrev pub between : ℕ → ℕ → Bool
between low high = leb (signed_key low) (signed_key high)

module _ (calc : Sym → M (Unit {0})) where
  -- The first loop; the result is `conf_unsaved`.
  unfoldable pub check_symbols : List Sym → ℕ → M ℕ
  check_symbols [] n = pure n
  check_symbols (x ∷ xs) n = do calc x; u ← user x; check_symbols xs (count_if (is_unsaved u) n)

  -- sym_string_within_range, for a valid string.
  unfoldable pub within_limits : ℕ → Bytes → Option Range → M Bool
  within_limits base str none = pure true
  within_limits base str (some prop) = range_val calc prop.low base >>= λ low.
      if between low (strtoll base str).value
      then (range_val calc prop.high base >>= λ high. pure (between (strtoll base str).value high))
      else pure false

  unfoldable pub number_within : SymbolType → ℕ → UserSymbol → Bytes → M Bool
  number_within type base u str =
      if sym_string_valid type str
      then (range_prop calc u.ranges >>= λ prop. within_limits base str prop)
      else pure false

  abbrev pub text_within : SymbolType → UserSymbol → Bytes → M Bool
  text_within int u str = number_within int 10 u str
  text_within hex u str = number_within hex 16 u str
  text_within type u str = pure (sym_string_valid type str)

  abbrev pub def_within : UserSymbol → M Bool
  def_within u = elim u.def_val [ none ↦ pure false | some str ↦ text_within u.curr.type u str ]

  -- A string that is out of range is dropped.
  unfoldable pub check_range : Sym → ℕ → M ℕ
  check_range x n = do
    u ← user x
    w ← def_within u
    if w then pure n else set x (λ u. record u { is_valid = false; is_set = false }) >> pure (suc n)

  -- The second loop.
  unfoldable pub reset_unseen : List Sym → ℕ → M ℕ
  reset_unseen [] n = pure n
  reset_unseen (x ∷ xs) n = do
    u ← user x
    m ←
        if u.is_set && negate u.is_choice_value
        then (when (is_no u.visible && n == 0) (set x (λ u. record u { is_set = false }))
            >> (if is_text u.curr.type then check_range x n else pure n))
        else pure n
    reset_unseen xs m

  abbrev pub check_all : ℕ → M (Unit {0})
  check_all warnings = do
    modules ← read (λ s. s.modules_sym)
    calc modules
    all ← read (λ s. s.symbols)
    unsaved ← check_symbols all 0
    unsaved' ← reset_unseen all unsaved
    write (λ s. record s {
      sym_change_count = s.sym_change_count + (if warnings == 0 && unsaved' == 0 then 0 else 1);
    })

  abbrev pub conf_checks : ℕ → M ℕ
  conf_checks warnings = check_all warnings >> pure 0

abbrev pub unchanged : Store → Store
unchanged s = record s { sym_change_count = 0 }

-- conf_read_simple on an open file, and what conf_read does behind it.
unfoldable pub load : ℕ → Outside → SymbolTable → Bytes → M ℕ
load f outside symbols text s = elim (conf_read_simple symbols outside.freed text s) [
  | none ↦ none
  | some r ↦ conf_checks (calc_fuel f) r.warnings r.store
]

abbrev pub load_opened : ℕ → Outside → SymbolTable → Option Bytes → M ℕ
load_opened f outside symbols none = read (λ s. s.modules_sym) >>= calc_fuel f >> pure 1
load_opened f outside symbols (some text) = load f outside symbols text

-- conf_read, with the name that it takes, or `none` for NULL; the result is what it returns.
unfoldable pub conf_read : ℕ → Outside → SymbolTable → Option Bytes → M ℕ
conf_read f outside symbols name = do
  write unchanged
  file ← open_conf outside (calc_fuel f) name
  load_opened f outside symbols file
