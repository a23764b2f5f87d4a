-- ===== src/Kconfig/ConfCheck/Total.antt =====
-- conf_read of scripts/kconfig/confdata.c ends.
use lightbuild.Prelude.{
  ℕ, suc, ◌*◌, ◌<◌, ◌≡◌, refl, ◌∙◌, subst, Bool, true, false, Option, none, some, List, [], ◌∷◌,
  Bytes, if◌then◌else◌, length, map,
}
use lightbuild.Kconfig.Symbol.{Sym}
use lightbuild.Kconfig.Store.{DefaultProp, UserSymbol, Store, among}
use lightbuild.Kconfig.Lookup.{SymbolTable}
use lightbuild.Kconfig.Default.{prop_get_symbol}
use lightbuild.Kconfig.Monad.{M, ◌>>=◌, ◌>>◌, read, write}
use lightbuild.Kconfig.Assign.Ready.{IsIdle}
use lightbuild.Kconfig.Calc.{user}
use lightbuild.Kconfig.Calc.Value.{calc_fuel}
use lightbuild.Kconfig.Calc.Parts.{get_string-Runs, calc_cond-Runs}
use lightbuild.Kconfig.Calc.Fuel.{frozen}
use lightbuild.Kconfig.ConfRead.{
  lines_of, terminated, is_freed, with_curr_val, reset_symbol, reset_symbols, conf_read_simple,
}
use lightbuild.Kconfig.ConfOpen.{
  Outside, conf_get_configname, zconf_fopen, or_else, open_default, open_defaults, open_list,
  open_conf,
}
use lightbuild.Kconfig.ConfRead.Total.{read_lines-total}
use lightbuild.Kconfig.ConfRead.Only.{Only}
use lightbuild.Kconfig.ConfCheck.{unchanged, conf_read, load, load_opened}
use lightbuild.Kconfig.ConfCheck.Checks.{calc-Runs, calc-Ends, check_all-Ends}
use lightbuild.Kconfig.Calc.Rules.{bind_run}
use lightbuild.Kconfig.ConfCheck.Ends.{
  Returns, Returns-then, Ends, Ends-Runs, Ends-pure, Ends-read, Ends-bind, Ends-then, Ends-if,
  Ends-count,
}

after_reset :
    (listed gone : Bool) (val : Bytes) (u : UserSymbol)
    → let v = if listed then reset_symbol u else u in
      let w = if gone then with_curr_val val v else v in
      (w.needs_choice_values ≡ u.needs_choice_values) × (listed ≡ false → w.is_valid ≡ u.is_valid)
after_reset true true val u = (refl, λ e. absurd (cc))
after_reset true false val u = (refl, λ e. absurd (cc))
after_reset false true val u = (refl, λ e. refl)
after_reset false false val u = (refl, λ e. refl)

reset_symbols-symbols :
    (freed : ℕ → Bytes) (s : Store) → (reset_symbols freed s).symbols ≡ s.symbols
unfolding reset_symbols
reset_symbols-symbols freed s = refl

reset_symbols-IsIdle : (freed : ℕ → Bytes) (s : Store) → IsIdle s → IsIdle (reset_symbols freed s)
unfolding reset_symbols
reset_symbols-IsIdle freed s (c, p) =
    let after = λ (y : Sym).
      after_reset (among y s.symbols) (is_freed s.get s.symbols (s.get y).val_at)
        (freed (s.get y).val_at) (s.get y) in
    (λ y out. let (n, v) = after y in rw (v out, n) (c y out), λ y. (after y).0 ∙ p y)

Only-IsIdle : (free : Sym → Bool) (s t : Store) → Only free s t → IsIdle s → IsIdle t
Only-IsIdle free s t k (c, p) = (
  λ y out.
      let (v, n) = k.flags y in rw (v, n) (c y (subst (λ xs. among y xs ≡ false) k.symbols.0 out)),
  λ y. (k.flags y).1 ∙ p y,
)

-- What conf_read returns.
abbrev pub code_of : Option Bytes → ℕ
code_of none = 1
code_of (some text) = 0

module _ (all : List Sym) (f : ℕ) (enough : 3 * length all < f) (outside : Outside) where
  or_else-Ends :
      (file : Option Bytes) (more : M (Option Bytes))
      → Ends all more
      → Ends all (or_else outside (calc_fuel f) file more)
  or_else-Ends none more h = h
  or_else-Ends (some text) more h = Ends-pure all _

  open_default-Ends :
      (o : Option Sym) (more : M (Option Bytes))
      → Ends all more
      → Ends all (open_default outside (calc_fuel f) o more)
  open_default-Ends none more h = h
  open_default-Ends (some x) more h =
      Ends-bind all _ _
        (Ends-then all _ _ (calc-Ends all f enough x) (
          Ends-Runs all f _ enough
            (get_string-Runs frozen f (calc_fuel f) (calc-Runs all f enough) x)))
        (λ name. or_else-Ends (zconf_fopen outside name) more h)

  open_defaults-Ends :
      (props : List DefaultProp) → Ends all (open_defaults outside (calc_fuel f) props)
  unfolding open_defaults
  open_defaults-Ends [] = Ends-pure all none
  open_defaults-Ends (prop ∷ next) =
      Ends-bind all _ _
        (Ends-Runs all f _ enough
          (calc_cond-Runs frozen f (calc_fuel f) (calc-Runs all f enough) prop.condition))
        (λ v.
          Ends-if all _ _ _ (open_defaults-Ends next)
            (open_default-Ends (prop_get_symbol prop) _ (open_defaults-Ends next)))

  open_list-Ends : (o : Option Sym) → Ends all (open_list outside (calc_fuel f) o)
  open_list-Ends none = Ends-pure all none
  open_list-Ends (some x) =
      Ends-bind all (user x) _ (Ends-read all _) (λ u. open_defaults-Ends u.defaults)

  open_conf-Ends : (name : Option Bytes) → Ends all (open_conf outside (calc_fuel f) name)
  unfolding open_conf
  open_conf-Ends (some name) = Ends-pure all _
  open_conf-Ends none = or_else-Ends (zconf_fopen outside (conf_get_configname outside)) _ (
      Ends-then all _ _ (Ends-count all (λ s. suc s.sym_change_count))
        (open_list-Ends outside.sym_defconfig_list))

  load_opened-Returns :
      (symbols : SymbolTable) (file : Option Bytes)
      → Returns all (load_opened f outside symbols file) (code_of file)
  unfolding load conf_read_simple
  load_opened-Returns symbols none =
      Returns-then all _ 1
        (Ends-bind all (read (λ s. s.modules_sym)) _ (Ends-read all _) (calc-Ends all f enough))
  load_opened-Returns symbols (some text) = record {
    run = λ s e idle.
        let (r, runs, only) =
          read_lines-total symbols (map terminated (lines_of text))
            (record { store = reset_symbols outside.freed s; warnings = 0 }) in
        let returns = Returns-then all {A = ℕ} _ 0 (check_all-Ends all f enough r.warnings) in
        let (t, checks, e', idle') =
          returns.run r.store (only.symbols.0 ∙ reset_symbols-symbols outside.freed s ∙ e) (
            Only-IsIdle _ (reset_symbols outside.freed s) r.store only
              (reset_symbols-IsIdle outside.freed s idle)) in
        (t, (rw (runs, load) checks), e', idle');
  }

-- conf_read ends, whatever files there are and whatever they hold, for a name and for NULL. It opens a file, or
-- none, as conf_read_simple does, where for NULL and a missing configuration the defaults of
-- `sym_defconfig_list` are calculated until one names a file that opens; and it returns 0 if a file is open,
-- whose values are then read and checked, and 1 if none is. Fuel for three steps for each symbol and one
-- more is enough. No choice has to set its values, before and behind it, and all symbols outside the
-- table are calculated.
pub conf_read-ends :
    (f : ℕ) (outside : Outside) (symbols : SymbolTable) (name : Option Bytes) (s : Store)
    → IsIdle s
    → 3 * length s.symbols < f
    → (file : Option Bytes) × (opened : Store) × (open_conf outside
          (calc_fuel f)
          name
          (record s { sym_change_count = 0 })
        ≡ some (file, opened))
      × (t : Store) × (conf_read f outside symbols name s ≡ some (code_of file, t))
      × (t.symbols ≡ s.symbols)
      × IsIdle t
unfolding conf_read ◌>>◌ write
conf_read-ends f outside symbols name s (c, p) enough =
    let all = s.symbols in
    let opens = open_conf-Ends all f enough outside name in
    let (file, opened, runs, e, idle) = opens.run (unchanged s) refl (c, p) in
    let loads = load_opened-Returns all f enough outside symbols file in
    let (t, runs', e', idle') = loads.run opened e idle in
    let rest = open_conf outside (calc_fuel f) name >>= load_opened f outside symbols in
    (
      file,
      opened,
      runs,
      t,
      bind_run (write unchanged) (λ _. rest) s (unchanged s) tt (some (code_of file, t)) refl
          (bind_run (open_conf outside (calc_fuel f) name) (load_opened f outside symbols)
            (unchanged s) opened file (some (code_of file, t)) runs runs'),
      e',
      idle',
    )
