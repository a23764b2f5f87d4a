-- ===== src/Kconfig/ConfCheck/Ends.antt =====
-- Code that ends on stores whose symbols are `all`, also where it makes some of them invalid: for
-- conf_read of scripts/kconfig/confdata.c.
use lightbuild.Prelude.{
  ℕ, ◌*◌, ◌≤◌, ◌<◌, ◌≡◌, refl, sym, ◌∙◌, subst, Bool, true, false, some, List, [], ◌∷◌, ◌==◌,
  ==_iff, if◌then◌else◌, Bool-cases, inl, inr, arith, length,
}
use lightbuild.Kconfig.Symbol.{Sym}
use lightbuild.Kconfig.Store.{UserSymbol, Store, update, among}
use lightbuild.Kconfig.Monad.{M, pure, ◌>>=◌, ◌>>◌, read, write, set}
use lightbuild.Kconfig.Assign.Ready.{IsIdle}
use lightbuild.Kconfig.Calc.Keeps.{Keeps-IsClosed, lighter-NonePending, left_in, left, Runs}
use lightbuild.Kconfig.Calc.Rules.{bind_run}
use lightbuild.Kconfig.Calc.Fuel.{frozen}

left_in-bound : (get : Sym → UserSymbol) (xs : List Sym) → left_in get xs ≤ 3 * length xs
unfolding left_in
left_in-bound get [] = omega arith
left_in-bound get (x ∷ xs) = ground (arith, left_in-bound get xs)

pub record Ends (all : List Sym) {A : Type 0} (m : M A) : Type 0 where
  pub run :
      (s : Store)
      → s.symbols ≡ all
      → IsIdle s
      → (a : A) × (t : Store) × (m s ≡ some (a, t)) × (t.symbols ≡ all) × IsIdle t

module _ (all : List Sym) where
  pub Ends-Runs : {A : Type 0} (f : ℕ) (m : M A) → 3 * length all < f → Runs frozen f m → Ends all m
  Ends-Runs f m enough h = record {
    run = λ s e (c, p).
        let bound : left s ≤ 3 * length all =
          subst (λ xs. left s ≤ 3 * length xs) e (left_in-bound s.get s.symbols) in
        let (a, t, runs, keeps) = h.run s c (omega (arith, bound, enough)) in
        (
          a,
          t,
          runs,
          keeps.same_symbols ∙ e,
          (Keeps-IsClosed frozen s t keeps c, lighter-NonePending s t keeps.lighter p),
        );
  }

  pub Ends-pure : {A : Type 0} (a : A) → Ends all (pure a)
  unfolding pure
  Ends-pure a = record { run = λ s e i. (a, s, refl, e, i) }

  pub Ends-read : {A : Type 0} (g : Store → A) → Ends all (read g)
  unfolding read
  Ends-read g = record { run = λ s e i. (g s, s, refl, e, i) }

  pub Ends-bind :
      {A B : Type 0} (m : M A) (k : A → M B)
      → Ends all m
      → ((a : A) → Ends all (k a))
      → Ends all (m >>= k)
  Ends-bind m k hm hk = record {
    run = λ s e i.
        let (a, t, runs, e', i') = hm.run s e i in
        let (b, u, runs', e'', i'') = (hk a).run t e' i' in
        (b, u, bind_run m k s t a (some (b, u)) runs runs', e'', i'');
  }

  pub Ends-then :
      {B : Type 0} (m : M (Unit {0})) (k : M B) → Ends all m → Ends all k → Ends all (m >> k)
  unfolding ◌>>◌
  Ends-then m k hm hk = Ends-bind m (λ _. k) hm (λ _. hk)

  pub Ends-if :
      {A : Type 0} (b : Bool) (x y : M A) → Ends all x → Ends all y → Ends all (if b then x else y)
  Ends-if true x y hx hy = hx
  Ends-if false x y hx hy = hy

  -- Symbols of the table may become invalid.
  pub Ends-invalid :
      (x : Sym)
      → among x all ≡ true
      → Ends all (set x (λ u. record u { is_valid = false; is_set = false }))
  unfolding set write
  Ends-invalid x m = record {
    run = λ s e (c, p). (
      tt,
      update s x (λ u. record u { is_valid = false; is_set = false }),
      refl,
      e,
      (
        λ y out. elim (Bool-cases (y == x)) [
          | inl here ↦ absurd (
              cc (
                subst (λ z. among z s.symbols ≡ false) ((==_iff y x).0 here) out,
                subst (λ xs. among x xs ≡ true) (sym e) m,
              ))
          | inr away ↦ rw away (c y out)
        ],
        λ y. elim (Bool-cases (y == x)) [ inl here ↦ rw here (p y) | inr away ↦ rw away (p y) ],
      ),
    );
  }

  pub Ends-symbols :
      {B : Type 0} (k : List Sym → M B) → Ends all (k all) → Ends all (read (λ s. s.symbols) >>= k)
  unfolding read
  Ends-symbols k h = record {
    run = λ s e i.
        let (b, u, runs, e', i') = h.run s e i in
        (
          b,
          u,
          bind_run (read (λ s. s.symbols)) k s s s.symbols _ refl
              (subst (λ xs. k xs s ≡ some (b, u)) (sym e) runs),
          e',
          i',
        );
  }

  pub Ends-count : (g : Store → ℕ) → Ends all (write (λ s. record s { sym_change_count = g s }))
  unfolding write
  Ends-count g = record {
    run = λ s e (c, p). (tt, record s { sym_change_count = g s }, refl, e, (c, p));
  }

  -- Code that ends with the result `c`.
  pub record Returns {A : Type 0} (m : M A) (c : A) : Type 0 where
    pub run :
        (s : Store)
        → s.symbols ≡ all
        → IsIdle s
        → (t : Store) × (m s ≡ some (c, t)) × (t.symbols ≡ all) × IsIdle t

  pub Returns-then : {A : Type 0} (m : M (Unit {0})) (c : A) → Ends all m → Returns (m >> pure c) c
  unfolding ◌>>◌ pure
  Returns-then m c h = record {
    run = λ s e i.
        let (a, t, runs, e', i') = h.run s e i in
        (t, bind_run m (λ _. pure c) s t a (some (c, t)) runs refl, e', i');
  }
