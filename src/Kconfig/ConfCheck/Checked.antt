-- ===== src/Kconfig/ConfCheck/Checked.antt =====
-- The first loop of conf_read of scripts/kconfig/confdata.c calculates all symbols.
use lightbuild.Prelude.{
  ℕ, ◌≡◌, refl, subst, true, some, List, [], ◌∷◌, ◌==◌, ==_iff, Bool-cases, inl, inr, arith, ◌<◌,
}
use lightbuild.Kconfig.Symbol.{Sym}
use lightbuild.Kconfig.Store.{Store, among}
use lightbuild.Kconfig.Monad.{◌>>◌}
use lightbuild.Kconfig.Calc.Value.{calc_fuel}
use lightbuild.Kconfig.Calc.Keeps.{NonePending, IsClosed, left, SameCurr}
use lightbuild.Kconfig.Calc.Stable.{valid_kept}
use lightbuild.Kconfig.Calc.Refine.{
  IsReady, ReadsAt, reads_then, reads_pure, reads_read, reads_calc,
}
use lightbuild.Kconfig.ConfCheck.{count_if, is_unsaved, check_symbols}

abbrev AreValid : List Sym → ℕ → Store → Type 0
AreValid xs n t = (x : Sym) → among x xs ≡ true → (t.get x).is_valid ≡ true

module _ (f : ℕ) where
  reads_all :
      (xs : List Sym) (n : ℕ) (s : Store)
      → IsReady f s
      → ReadsAt (check_symbols (calc_fuel f) xs n) s (AreValid xs)
  unfolding check_symbols ◌>>◌
  reads_all [] n s ready = reads_pure f n s (AreValid []) (λ x h. absurd (cc))
  reads_all (x ∷ xs) n s ready =
      reads_then f (calc_fuel f x) _ s (λ a t. (t.get x).is_valid ≡ true) (AreValid (x ∷ xs)) ready
        (reads_calc f x s ready)
        (λ a t r k v.
          reads_read f (λ q. q.get x) _ t (AreValid (x ∷ xs))
            (let (m, u, runs, keeps, valid) =
                reads_all xs (count_if (is_unsaved (t.get x)) n) t r in
              (
                m,
                u,
                runs,
                keeps,
                λ y h. elim (Bool-cases (x == y)) [
                  | inl here ↦
                      subst (λ z. (u.get z).is_valid ≡ true) ((==_iff x y).0 here)
                        (valid_kept t u keeps x v)
                  | inr away ↦ valid y (ground (arith, h, away))
                ],
              )))

  -- The first loop of conf_read ends, on a store where no choice has to set its values: afterwards every
  -- symbol of the table is valid, and those that were valid before have the same values.
  pub check_symbols-valid :
      (s : Store)
      → IsClosed s
      → NonePending s
      → left s < f
      → (unsaved : ℕ) × (t : Store) × (check_symbols (calc_fuel f) s.symbols 0 s
          ≡ some (unsaved, t))
        × ((x : Sym) → among x s.symbols ≡ true → (t.get x).is_valid ≡ true)
        × ((x : Sym) → (s.get x).is_valid ≡ true → SameCurr (s.get x) (t.get x))
  check_symbols-valid s c p l =
      let (n, t, runs, keeps, valid) = reads_all s.symbols 0 s (c, p, l) in
      (n, t, runs, valid, λ x v. keeps.kept x refl v)
