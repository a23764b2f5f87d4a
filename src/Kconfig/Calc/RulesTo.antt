-- ===== src/Kconfig/Calc/RulesTo.antt =====
-- Rules for `RunsTo`: code on the store of scripts/kconfig/symbol.c that ends, and what holds of its result.
use lightbuild.Prelude.{ℕ, ◌<◌, ◌≡◌, refl, Bool, true, false, some, if◌then◌else◌, arith}
use lightbuild.Kconfig.Symbol.{Sym}
use lightbuild.Kconfig.Store.{Store}
use lightbuild.Kconfig.Monad.{M, pure, ◌>>=◌, ◌>>◌}
use lightbuild.Kconfig.Calc.Keeps.{
  left, IsClosed, Keeps, Keeps-refl, Keeps-trans, Keeps-left, Keeps-IsClosed, Runs,
}
use lightbuild.Kconfig.Calc.Rules.{bind_run}

-- The same, with what holds of the result and the store behind it.
pub record RunsTo (free : Sym → Bool) (n : ℕ) {A : Type 0} (m : M A) (Q : A → Store → Type 0)
    : Type 0 where
  pub run :
      (s : Store)
      → IsClosed s
      → left s < n
      → (a : A) × (t : Store) × (m s ≡ some (a, t)) × Keeps free s t × Q a t

module _ (free : Sym → Bool) (n : ℕ) where
  pub RunsTo-pure :
      {A : Type 0} (a : A) (Q : A → Store → Type 0)
      → ((s : Store) → Q a s)
      → RunsTo free n (pure a) Q
  unfolding pure
  RunsTo-pure a Q q = record { run = λ s c l. (a, s, refl, Keeps-refl free s, q s) }

  pub RunsTo-bind :
      {A B : Type 0} (m : M A) (k : A → M B) (Q : B → Store → Type 0)
      → Runs free n m
      → ((a : A) → RunsTo free n (k a) Q)
      → RunsTo free n (m >>= k) Q
  RunsTo-bind m k Q hm hk = record {
    run = λ s c l.
        let (a, t, runs, keeps) = hm.run s c l in
        let (b, u, runs', keeps', q) =
          (hk a).run t (Keeps-IsClosed free s t keeps c)
            (omega (arith, Keeps-left free s t keeps, l)) in
        (b, u, bind_run m k s t a (some (b, u)) runs runs', Keeps-trans free s t u keeps keeps', q);
  }

  pub RunsTo-then :
      {B : Type 0} (m : M (Unit {0})) (k : M B) (Q : B → Store → Type 0)
      → Runs free n m
      → RunsTo free n k Q
      → RunsTo free n (m >> k) Q
  unfolding ◌>>◌
  RunsTo-then m k Q hm hk = RunsTo-bind m (λ _. k) Q hm (λ _. hk)

  pub RunsTo-if :
      {A : Type 0} (b : Bool) (x y : M A) (Q : A → Store → Type 0)
      → RunsTo free n x Q
      → RunsTo free n y Q
      → RunsTo free n (if b then x else y) Q
  RunsTo-if true x y Q hx hy = hx
  RunsTo-if false x y Q hx hy = hy

  pub RunsTo-weaken :
      {A : Type 0} (m : M A) (P Q : A → Store → Type 0)
      → RunsTo free n m P
      → ((a : A) (s : Store) → P a s → Q a s)
      → RunsTo free n m Q
  RunsTo-weaken m P Q h w = record {
    run = λ s c l. let (a, t, runs, keeps, p) = h.run s c l in (a, t, runs, keeps, w a t p);
  }

  -- What follows may use what holds.
  pub Runs-bind_to :
      {A B : Type 0} (m : M A) (k : A → M B) (Q : A → Store → Type 0)
      → RunsTo free n m Q
      → ((a : A) (t : Store)
          → Q a t
          → IsClosed t
          → left t < n
          → (b : B) × (u : Store) × (k a t ≡ some (b, u)) × Keeps free t u)
      → Runs free n (m >>= k)
  Runs-bind_to m k Q hm hk = record {
    run = λ s c l.
        let (a, t, runs, keeps, q) = hm.run s c l in
        let (b, u, runs', keeps') =
          hk a t q (Keeps-IsClosed free s t keeps c)
            (omega (arith, Keeps-left free s t keeps, l)) in
        (b, u, bind_run m k s t a (some (b, u)) runs runs', Keeps-trans free s t u keeps keeps');
  }
