-- ===== src/Kconfig/Calc/Total.antt =====
-- sym_calc_value of scripts/kconfig/symbol.c, with the fuel that it needs.
use lightbuild.Prelude.{suc, ◌≡◌, refl, sym, ap, ◌∙◌, true, false, Option, none, some, arith}
use lightbuild.Kconfig.Symbol.{Sym}
use lightbuild.Kconfig.Store.{Store}
use lightbuild.Kconfig.Monad.{pure, read}
use lightbuild.Kconfig.Calc.Value.{calc_body, calc_fuel}
use lightbuild.Kconfig.Calc.Keeps.{Keeps, left, IsClosed, NoBooleanMod, SameCurr}
use lightbuild.Kconfig.Calc.Rules.{bind_run}
use lightbuild.Kconfig.Calc.Fuel.{frozen, calc_fuel-run}

-- The store behind a run; where the fuel ran out, the store before it.
abbrev pub behind : Store → Option (Unit {0} × Store) → Store
behind s none = s
behind s (some (a, t)) = t

unfoldable pub sym_calc_value : Sym → Store → Store
sym_calc_value x s = behind s (calc_fuel (suc (left s)) x s)

-- The fuel of `sym_calc_value` is enough: the calls that calculate a symbol end.
pub sym_calc_value-ends :
    (x : Sym) (s : Store)
    → IsClosed s
    → calc_fuel (suc (left s)) x s ≡ some (tt, sym_calc_value x s)
unfolding sym_calc_value
sym_calc_value-ends x s c =
    let (a, t, runs, keeps, done) = calc_fuel-run (suc (left s)) x s c (omega arith) in
    runs ∙ ap (λ r. some (tt, r)) (sym (ap (behind s) runs))

pub sym_calc_value-Keeps : (x : Sym) (s : Store) → IsClosed s → Keeps frozen s (sym_calc_value x s)
unfolding sym_calc_value
sym_calc_value-Keeps x s c =
    let (a, t, runs, keeps, done) = calc_fuel-run (suc (left s)) x s c (omega arith) in
    rw runs keeps

-- After the calculation of a symbol the symbol is valid, unless the values of its choice were to be
-- set. A symbol that was valid before still is, with the same value; no symbol's type has changed,
-- nor the string that a user has set.
pub sym_calc_value_sound :
    (x : Sym) (s : Store)
    → IsClosed s
    → ((s.get x).needs_choice_values ≡ false → ((sym_calc_value x s).get x).is_valid ≡ true)
      × ((y : Sym)
          → ((s.get y).is_valid ≡ true → SameCurr (s.get y) ((sym_calc_value x s).get y))
            × (((sym_calc_value x s).get y).curr.type ≡ (s.get y).curr.type)
            × (((sym_calc_value x s).get y).def_val ≡ (s.get y).def_val))
unfolding sym_calc_value
sym_calc_value_sound x s c =
    let (a, t, runs, keeps, done) = calc_fuel-run (suc (left s)) x s c (omega arith) in
    rw runs (
      (λ unset. ground (arith, done unset)),
      λ y. (keeps.kept y refl, keeps.same_type y, keeps.same_strings y),
    )

-- A calculation leaves no BOOLEAN symbol `m` when none was.
pub sym_calc_value-NoBooleanMod :
    (x : Sym) (s : Store) → IsClosed s → NoBooleanMod s → NoBooleanMod (sym_calc_value x s)
sym_calc_value-NoBooleanMod x s c = (sym_calc_value-Keeps x s c).no_mod

-- A symbol that is valid is not calculated again.
pub sym_calc_value-valid :
    (x : Sym) (s : Store) → (s.get x).is_valid ≡ true → sym_calc_value x s ≡ s
unfolding sym_calc_value calc_fuel calc_body read pure
sym_calc_value-valid x s e =
    let runs : calc_fuel (suc (left s)) x s ≡ some (tt, s) =
      bind_run (read (λ r. r.get x)) _ s s (s.get x) _ refl (rw e refl) in
    ap (behind s) runs

-- Calculating a symbol a second time changes nothing, unless the values of its choice were to be set.
pub sym_calc_value-again :
    (x : Sym) (s : Store)
    → IsClosed s
    → (s.get x).needs_choice_values ≡ false
    → sym_calc_value x (sym_calc_value x s) ≡ sym_calc_value x s
sym_calc_value-again x s c unset =
    sym_calc_value-valid x (sym_calc_value x s) ((sym_calc_value_sound x s c).0 unset)
