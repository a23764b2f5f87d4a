-- ===== src/Kconfig/Calc/Refine.antt =====
-- expr_calc_value of scripts/kconfig/expr.c calculates the symbols that it reads, and gives the value of the
-- expression over the symbols as it leaves them.
use lightbuild.Prelude.{ℕ, ◌<◌, ◌≡◌, refl, ap, ◌∙◌, Bool, true, false, some, Bytes, arith}
use lightbuild.Kconfig.Tristate.{Tristate, tri_mod, tri_eq}
use lightbuild.Kconfig.Symbol.{letter, Sym, sym_get_string_value}
use lightbuild.Kconfig.Expr.{Relation, Expr, symbol, not, and, or, comp, list_end, list, range}
use lightbuild.Kconfig.Expr.Value.{symbol_order, expr_calc_value}
use lightbuild.Kconfig.Store.{Store, table}
use lightbuild.Kconfig.Default.{is_tristate_like}
use lightbuild.Kconfig.Monad.{M, pure, ◌>>=◌, ◌>>◌, read}
use lightbuild.Kconfig.Calc.{get_string, calc_comp, calc_expr}
use lightbuild.Kconfig.Calc.Value.{calc_fuel}
use lightbuild.Kconfig.Calc.Keeps.{
  Keeps, Keeps-refl, Keeps-trans, Keeps-left, Keeps-IsClosed, NonePending, lighter-NonePending,
  left, IsClosed, SameCurr,
}
use lightbuild.Kconfig.Calc.Rules.{bind_run}
use lightbuild.Kconfig.Calc.Stable.{
  IsReadString, IsRead, string_plain, string_letter, string_mod, valid_kept, curr_kept, string_kept,
  value_kept,
}
use lightbuild.Kconfig.Calc.Fuel.{frozen, calc_fuel-run}

-- A store on which calculations end with the fuel `f`.
abbrev pub IsReady : ℕ → Store → Type 0
IsReady f s = IsClosed s × NonePending s × (left s < f)

IsReady-kept : (f : ℕ) (s t : Store) → Keeps frozen s t → IsReady f s → IsReady f t
IsReady-kept f s t k (c, p, l) = (
  Keeps-IsClosed frozen s t k c,
  lighter-NonePending s t k.lighter p,
  omega (arith, Keeps-left frozen s t k, l),
)

-- Code ends on a store, keeps what has been calculated, and leaves a result and a store with the property `P`.
abbrev pub ReadsAt : {A : Type 0} → M A → Store → (A → Store → Type 0) → Type 0
ReadsAt {A} m s P = (a : A) × (t : Store) × (m s ≡ some (a, t)) × Keeps frozen s t × P a t

module _ (f : ℕ) where
  pub reads_then :
      {A B : Type 0} (m : M A) (k : A → M B) (s : Store) (P : A → Store → Type 0)
      (Q : B → Store → Type 0)
      → IsReady f s
      → ReadsAt m s P
      → ((a : A) (t : Store) → IsReady f t → Keeps frozen s t → P a t → ReadsAt (k a) t Q)
      → ReadsAt (m >>= k) s Q
  reads_then m k s P Q ready (a, t, runs, keeps, p) h =
      let (b, u, runs', keeps', q) = h a t (IsReady-kept f s t keeps ready) keeps p in
      (b, u, bind_run m k s t a (some (b, u)) runs runs', Keeps-trans frozen s t u keeps keeps', q)

  pub reads_pure :
      {A : Type 0} (a : A) (s : Store) (P : A → Store → Type 0) → P a s → ReadsAt (pure a) s P
  unfolding pure
  reads_pure a s P p = (a, s, refl, Keeps-refl frozen s, p)

  reads_store :
      {A : Type 0} (g : Store → A) (s : Store) (P : A → Store → Type 0)
      → P (g s) s
      → ReadsAt (read g) s P
  unfolding read
  reads_store g s P p = (g s, s, refl, Keeps-refl frozen s, p)

  pub reads_calc :
      (x : Sym) (s : Store)
      → IsReady f s
      → ReadsAt (calc_fuel f x) s (λ a t. (t.get x).is_valid ≡ true)
  reads_calc x s (c, p, l) =
      let (a, t, runs, keeps, done) = calc_fuel-run f x s c l in
      (a, t, runs, keeps, ground (arith, done (p x)))

  pub reads_read :
      {A B : Type 0} (g : Store → A) (k : A → M B) (s : Store) (Q : B → Store → Type 0)
      → ReadsAt (k (g s)) s Q
      → ReadsAt (read g >>= k) s Q
  unfolding read
  reads_read g k s Q (b, u, runs, keeps, q) =
      (b, u, bind_run (read g) k s s (g s) _ refl runs, keeps, q)

  abbrev StringOf : Sym → Bytes → Store → Type 0
  StringOf x str t = (str ≡ sym_get_string_value (table t) x) × IsReadString t x

  reads_kind :
      (x : Sym) (s : Store) (like is_mod : Bool)
      → is_tristate_like (s.get x).curr.type ≡ like
      → tri_eq (s.get x).curr.tri tri_mod ≡ is_mod
      → IsReady f s
      → (s.get x).is_valid ≡ true
      → ReadsAt (get_string (calc_fuel f) x) s (StringOf x)
  unfolding get_string ◌>>◌ sym_get_string_value
  reads_kind x s false is_mod l m ready v =
      reads_read (λ r. r.get x) _ s (StringOf x)
        (rw l (
          reads_pure (s.get x).curr.val s (StringOf x)
            (string_plain _ (s.get x).curr _ l, (v, λ e h. absurd (cc)))))
  reads_kind x s true false l m ready v =
      reads_read (λ r. r.get x) _ s (StringOf x)
        (rw (l, m)
          (reads_pure (letter (s.get x).curr.tri) s (StringOf x)
            (string_letter _ (s.get x).curr _ l m, (v, λ e h. absurd (ground (arith, e, m))))))
  reads_kind x s true true l m ready v =
      reads_read (λ r. r.get x) _ s (StringOf x)
        (rw (l, m)
          (reads_then (read (λ r. r.modules_sym) >>= calc_fuel f) _ s
            (λ a t. (t.get s.modules_sym).is_valid ≡ true) (StringOf x) ready
            (reads_read (λ r. r.modules_sym) (calc_fuel f) s _ (reads_calc s.modules_sym s ready))
            (λ a t r k q. reads_store _ t (StringOf x) (
              rw (curr_kept s t k x v) (string_mod _ (s.get x).curr _ l m),
              (valid_kept s t k x v, λ e h. rw k.same_modules q),
            ))))

  reads_string :
      (x : Sym) (s : Store)
      → IsReady f s
      → (s.get x).is_valid ≡ true
      → ReadsAt (get_string (calc_fuel f) x) s (StringOf x)
  reads_string x s ready v =
      reads_kind x s (is_tristate_like (s.get x).curr.type) (tri_eq (s.get x).curr.tri tri_mod) refl
        refl ready v

  abbrev ValueOf : Expr → Tristate → Store → Type 0
  ValueOf e v t = (v ≡ expr_calc_value (table t) e) × IsRead t e

  reads_comp :
      (r : Relation) (a b : Sym) (s : Store)
      → IsReady f s
      → ReadsAt (calc_comp (calc_fuel f) r a b) s (ValueOf (comp r a b))
  unfolding calc_comp ◌>>◌ IsRead expr_calc_value symbol_order
  reads_comp r a b s ready =
      reads_then (calc_fuel f a) _ s _ _ ready (reads_calc a s ready) (λ _ t1 r1 k1 va.
        reads_then (calc_fuel f b) _ t1 _ _ r1 (reads_calc b t1 r1) (λ _ t2 r2 k2 vb.
          reads_then (get_string (calc_fuel f) a) _ t2 _ _ r2
            (reads_string a t2 r2 (valid_kept t1 t2 k2 a va))
            (λ str1 t3 r3 k3 (e1, q1).
              reads_then (get_string (calc_fuel f) b) _ t3 _ _ r3
                (reads_string b t3 r3 (valid_kept t2 t3 k3 b vb))
                (λ str2 t4 r4 k4 (e2, q2).
                  let (e3, q3) = string_kept t3 t4 k4 a q1 in
                  reads_store _ t4 _ (rw (e1, e2, e3) refl, (q3, q2))))))

  reads_expr :
      (e : Expr) (s : Store) → IsReady f s → ReadsAt (calc_expr (calc_fuel f) e) s (ValueOf e)
  unfolding calc_expr ◌>>◌ IsRead expr_calc_value
  reads_expr (symbol x) s ready =
      reads_then (calc_fuel f x) _ s _ _ ready (reads_calc x s ready)
        (λ _ t r k v. reads_store _ t _ (refl, v))
  reads_expr (and a b) s ready =
      reads_then (calc_expr (calc_fuel f) a) _ s _ _ ready (reads_expr a s ready) (λ v t r k (e, q).
        reads_then (calc_expr (calc_fuel f) b) _ t _ _ r (reads_expr b t r) (λ w u r' k' (e', q').
          let (h, q'') = value_kept t u k' a q in reads_pure _ u _ (rw (e, e', h) refl, (q'', q'))))
  reads_expr (or a b) s ready =
      reads_then (calc_expr (calc_fuel f) a) _ s _ _ ready (reads_expr a s ready) (λ v t r k (e, q).
        reads_then (calc_expr (calc_fuel f) b) _ t _ _ r (reads_expr b t r) (λ w u r' k' (e', q').
          let (h, q'') = value_kept t u k' a q in reads_pure _ u _ (rw (e, e', h) refl, (q'', q'))))
  reads_expr (not a) s ready =
      reads_then (calc_expr (calc_fuel f) a) _ s _ _ ready (reads_expr a s ready)
        (λ v t r k (e, q). reads_pure _ t _ (rw e refl, q))
  reads_expr (comp r a b) s ready = reads_comp r a b s ready
  reads_expr (list_end x) s ready = reads_pure _ s _ (refl, tt)
  reads_expr (list a x) s ready = reads_pure _ s _ (refl, tt)
  reads_expr (range a b) s ready = reads_pure _ s _ (refl, tt)

-- Evaluating an expression calculates the symbols that it reads, and ends. On a store where no choice
-- has to set its values the result is the expression's value over the symbols as they are afterwards:
-- all that the value depends on is valid by then, and symbols that were valid before keep their values.
pub calc_expr-expr_calc_value :
    (f : ℕ) (e : Expr) (s : Store)
    → IsClosed s
    → NonePending s
    → left s < f
    → (t : Store) × (calc_expr (calc_fuel f) e s ≡ some (expr_calc_value (table t) e, t))
      × IsRead t e
      × ((y : Sym) → (s.get y).is_valid ≡ true → SameCurr (s.get y) (t.get y))
calc_expr-expr_calc_value f e s c p l =
    let (v, t, runs, keeps, (same, q)) = reads_expr f e s (c, p, l) in
    (t, runs ∙ ap (λ w. some (w, t)) same, q, λ y valid. keeps.kept y refl valid)
