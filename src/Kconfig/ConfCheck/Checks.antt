-- ===== src/Kconfig/ConfCheck/Checks.antt =====
-- The checks of conf_read of scripts/kconfig/confdata.c end.
use lightbuild.Prelude.{
  ℕ, ◌+◌, ◌*◌, ◌<◌, ◌≡◌, refl, Bool, true, false, ◌&&◌, Option, none, some, List, [], ◌∷◌, Bytes,
  ◌==◌, ==_iff, if◌then◌else◌, arith, length,
}
use lightbuild.Kconfig.Symbol.{SymbolType, unknown, boolean, tristate, int, hex, string, Sym}
use lightbuild.Kconfig.Store.{Range, UserSymbol, among}
use lightbuild.Kconfig.Monad.{pure, read, set}
use lightbuild.Kconfig.Calc.{user}
use lightbuild.Kconfig.Calc.Value.{calc_fuel}
use lightbuild.Kconfig.Calc.Keeps.{Runs}
use lightbuild.Kconfig.Calc.Rules.{Runs-pure, Runs-bind, Runs-if, Runs-when}
use lightbuild.Kconfig.Calc.Parts.{range_prop-Runs, range_val-Runs, set-Runs}
use lightbuild.Kconfig.Calc.Fuel.{frozen, calc_fuel-run}
use lightbuild.Kconfig.ConfCheck.{
  check_symbols, within_limits, number_within, text_within, check_range, reset_unseen, check_all,
}
use lightbuild.Kconfig.ConfCheck.Ends.{
  Ends, Ends-Runs, Ends-pure, Ends-read, Ends-bind, Ends-then, Ends-if, Ends-invalid, Ends-symbols,
  Ends-count,
}

module _ (all : List Sym) (f : ℕ) (enough : 3 * length all < f) where
  pub calc-Runs : (x : Sym) → Runs frozen f (calc_fuel f x)
  calc-Runs x = record {
    run = λ s c l. let (a, t, runs, keeps, done) = calc_fuel-run f x s c l in (a, t, runs, keeps);
  }

  pub calc-Ends : (x : Sym) → Ends all (calc_fuel f x)
  calc-Ends x = Ends-Runs all f _ enough (calc-Runs x)

  check_symbols-Ends : (xs : List Sym) (n : ℕ) → Ends all (check_symbols (calc_fuel f) xs n)
  unfolding check_symbols
  check_symbols-Ends [] n = Ends-pure all n
  check_symbols-Ends (x ∷ xs) n =
      Ends-then all _ _ (calc-Ends x)
        (Ends-bind all (user x) _ (Ends-read all _) (λ u. check_symbols-Ends xs _))

  within_limits-Runs :
      (base : ℕ) (str : Bytes) (o : Option Range)
      → Runs frozen f (within_limits (calc_fuel f) base str o)
  unfolding within_limits
  within_limits-Runs base str none = Runs-pure frozen f true
  within_limits-Runs base str (some prop) =
      Runs-bind frozen f _ _ (range_val-Runs frozen f (calc_fuel f) calc-Runs prop.low base) (λ low.
        Runs-if frozen f _ _ _
          (Runs-bind frozen f _ _ (range_val-Runs frozen f (calc_fuel f) calc-Runs prop.high base)
            (λ high. Runs-pure frozen f _))
          (Runs-pure frozen f _))

  number_within-Runs :
      (type : SymbolType) (base : ℕ) (u : UserSymbol) (str : Bytes)
      → Runs frozen f (number_within (calc_fuel f) type base u str)
  unfolding number_within
  number_within-Runs type base u str =
      Runs-if frozen f _ _ _
        (Runs-bind frozen f _ _ (range_prop-Runs frozen f (calc_fuel f) calc-Runs u.ranges)
          (λ o. within_limits-Runs base str o))
        (Runs-pure frozen f _)

  text_within-Runs :
      (type : SymbolType) (u : UserSymbol) (str : Bytes)
      → Runs frozen f (text_within (calc_fuel f) type u str)
  text_within-Runs int u str = number_within-Runs int 10 u str
  text_within-Runs hex u str = number_within-Runs hex 16 u str
  text_within-Runs string u str = Runs-pure frozen f _
  text_within-Runs unknown u str = Runs-pure frozen f _
  text_within-Runs boolean u str = Runs-pure frozen f _
  text_within-Runs tristate u str = Runs-pure frozen f _

  def_within-Runs :
      (o : Option Bytes) (u : UserSymbol)
      → Runs frozen f {A = Bool}
          (elim o [ none ↦ pure false | some str ↦ text_within (calc_fuel f) u.curr.type u str ])
  def_within-Runs none u = Runs-pure frozen f false
  def_within-Runs (some str) u = text_within-Runs u.curr.type u str

  check_range-Ends :
      (x : Sym) (n : ℕ) → among x all ≡ true → Ends all (check_range (calc_fuel f) x n)
  unfolding check_range
  check_range-Ends x n m = Ends-bind all (user x) _ (Ends-read all _) (λ u.
      Ends-bind all _ _ (Ends-Runs all f _ enough (def_within-Runs u.def_val u)) (λ w.
        Ends-if all _ _ _ (Ends-pure all _)
          (Ends-then all _ _ (Ends-invalid all x m) (Ends-pure all _))))

  unset-Runs : (x : Sym) → Runs frozen f (set x (λ u. record u { is_set = false }))
  unset-Runs x = set-Runs frozen f x _ record {
    valid = λ u. refl;
    needs = λ u. refl;
    curr = λ u. refl;
    choice = λ u. refl;
    strings = λ u. refl;
    users = λ u. (refl, refl, refl);
  }

  reset_unseen-Ends :
      (xs : List Sym) (n : ℕ)
      → ((x : Sym) → among x xs ≡ true → among x all ≡ true)
      → Ends all (reset_unseen (calc_fuel f) xs n)
  unfolding reset_unseen
  reset_unseen-Ends [] n inside = Ends-pure all n
  reset_unseen-Ends (x ∷ xs) n inside =
      let here : among x all ≡ true = inside x (rw ((==_iff x x).1 refl) refl) in
      Ends-bind all (user x) _ (Ends-read all _) (λ u.
        Ends-bind all _ _
          (Ends-if all _ _ _
            (Ends-then all _ _ (Ends-Runs all f _ enough (Runs-when frozen f _ _ (unset-Runs x)))
              (Ends-if all _ _ _ (check_range-Ends x n here) (Ends-pure all n)))
            (Ends-pure all n))
          (λ m. reset_unseen-Ends xs m (λ y h. inside y (ground (arith, h)))))

  pub check_all-Ends : (warnings : ℕ) → Ends all (check_all (calc_fuel f) warnings)
  check_all-Ends warnings = Ends-bind all (read (λ s. s.modules_sym)) _ (Ends-read all _) (λ m.
      Ends-then all _ _ (calc-Ends m) (
        Ends-symbols all _ (
          Ends-bind all _ _ (check_symbols-Ends all 0) (λ n.
            Ends-bind all _ _ (reset_unseen-Ends all n (λ x h. h)) (λ k.
              Ends-count all
                (λ s. s.sym_change_count + (if warnings == 0 && k == 0 then 0 else 1)))))))
