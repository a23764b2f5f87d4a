-- ===== src/Kconfig/Expr/Dups/Walk.antt =====
-- What one comparison of two leaves, and one whole walk of expr_eliminate_dups1, keep.
use lightbuild.Prelude.{
  ℕ, ◌+◌, ◌≤◌, ◌≡◌, ◌≢◌, ◌⊎◌, refl, sym, ap, ◌∙◌, subst, true, false, arith, Option, some, inl, inr,
  [], ◌∷◌, Bool-cases, ◌==◌,
}
use lightbuild.Kconfig.Symbol.{Table, IsCalculated}
use lightbuild.Kconfig.Expr.{Expr, symbol, size}
use lightbuild.Kconfig.Expr.Value.{expr_calc_value}
use lightbuild.Kconfig.Expr.Yn.Shape.{IsReduced, NotYn}
use lightbuild.Kconfig.Expr.Eq.{Level, level_and, level_or, level_of, neutral, is_node}
use lightbuild.Kconfig.Expr.Eq.Sound.{join, join_assoc}
use lightbuild.Kconfig.Expr.Dups.{left, right, Place, get, put}
use lightbuild.Kconfig.Expr.Dups.Join.{Joins}
use lightbuild.Kconfig.Expr.Dups.Region.{
  InLevel, Disjoint, nodes, get-put, put-get, size-put, get-IsReduced, get-NotYn,
}
use lightbuild.Kconfig.Expr.Dups.Leaves.{
  value-put, get-put_ne, InLevel-put, nodes-put, Disjoint-ne_nil,
}

-- `d` stands for `e` after `n` simplifications.
pub record Keeps (t : Table) (l : Level) (e d : Expr) (n : ℕ) : Type 0 where
  pub same : expr_calc_value t d ≡ expr_calc_value t e
  pub small : size d ≤ size e
  pub places : (q : Place) → InLevel l e q → InLevel l d q × (nodes l (get d q) ≡ nodes l (get e q))
  pub unchanged : n ≡ 0 → d ≡ e
  pub reducible : n ≢ 0 → ¬ IsReduced d

abbrev pub Kept : Table → Level → Expr → Option (Expr × ℕ) → Type 0
Kept t l e r = (d : Expr) × (n : ℕ) × (r ≡ some (d, n)) × Keeps t l e d n

pub Keeps-refl : (t : Table) (l : Level) (e : Expr) → Keeps t l e e 0
Keeps-refl t l e = record {
  same = refl;
  small = omega arith;
  places = λ q h. (h, refl);
  unchanged = λ h. refl;
  reducible = λ ne. absurd (ne refl);
}

pub Keeps-trans :
    {t : Table} {l : Level} {e d c : Expr} {n m : ℕ}
    → Keeps t l e d n
    → Keeps t l d c m
    → Keeps t l e c (n + m)
Keeps-trans {t} {l} {e} {d} {c} {n} {m} h k = record {
  same = k.same ∙ h.same;
  small = omega (arith, h.small, k.small);
  places = λ q i. let (j, eq) = h.places q i in let (j', eq') = k.places q j in (j', eq' ∙ eq);
  unchanged = λ z. k.unchanged (omega arith) ∙ h.unchanged (omega arith);
  reducible = λ ne. reducible_by (Bool-cases (m == 0)) ne;
}
  where
    reducible_by : ((m == 0) ≡ true) ⊎ ((m == 0) ≡ false) → n + m ≢ 0 → ¬ IsReduced c
    reducible_by (inl z) ne =
        let m0 : m ≡ 0 = ground arith in
        subst (λ x. ¬ IsReduced x) (sym (k.unchanged m0)) (h.reducible (λ n0. ne (omega arith)))
    reducible_by (inr nz) ne = k.reducible (ground arith)

pub nodes-leaf : (l : Level) (e : Expr) → nodes l e ≡ 0 → is_node l e ≡ false
unfolding nodes
nodes-leaf l e h = ground arith

other_leaf :
    (l l' : Level) (x x' : Expr)
    → is_node l x ≡ false
    → level_of x ≡ some l'
    → nodes l' x' ≡ nodes l' x
    → is_node l x' ≡ false
unfolding nodes
other_leaf l l' x x' n h k = ground arith

pub Disjoint-symm : (p q : Place) → Disjoint p q → Disjoint q p
Disjoint-symm (left ∷ p) (left ∷ q) d = Disjoint-symm p q d
Disjoint-symm (right ∷ p) (right ∷ q) d = Disjoint-symm p q d
Disjoint-symm (left ∷ p) (right ∷ q) d = tt
Disjoint-symm (right ∷ p) (left ∷ q) d = tt
Disjoint-symm (left ∷ p) [] d = absurd d
Disjoint-symm (right ∷ p) [] d = absurd d
Disjoint-symm [] q d = absurd d

module _ (t : Table) (c : IsCalculated t) (l : Level) (e : Expr) (p : Place) (hp : InLevel l e p)
    (leaf : is_node l (get e p) ≡ false) where
  -- The value of the whole, from the leaf's.
  value-leaf :
      expr_calc_value t e
      ≡ join l (expr_calc_value t (get e p)) (expr_calc_value t (put e p (symbol (neutral l))))
  value-leaf = ap (expr_calc_value t) (sym (put-get l e p hp)) ∙ value-put t c l e p (get e p) hp

  pub Keeps-put :
      (l' : Level) (x : Expr) (n : ℕ)
      → level_of (get e p) ≡ some l'
      → Keeps t l' (get e p) x n
      → Keeps t l e (put e p x) n
  unfolding get
  Keeps-put l' x n at h =
      let leaf' = other_leaf l l' (get e p) x leaf at (h.places [] tt).1 in
      record {
        same =
            value-put t c l e p x hp
            ∙ ap (λ v. join l v (expr_calc_value t (put e p (symbol (neutral l))))) h.same
            ∙ sym value-leaf;
        small = omega (arith, size-put l e p x hp, h.small);
        places = λ q hq. (InLevel-put l e p q x leaf hp hq, nodes-put l e p q x leaf leaf' hp hq);
        unchanged = λ z. ap (put e p) (h.unchanged z) ∙ put-get l e p hp;
        reducible = λ nz r. h.reducible nz (
            subst IsReduced (get-put l e p x hp)
              (get-IsReduced l (put e p x) p (InLevel-put l e p p x leaf hp hp) r));
      }

size-neutral : (l : Level) → size (symbol (neutral l)) ≡ 1
unfolding size
size-neutral l = refl

neutral_leaf : (l : Level) → is_node l (symbol (neutral l)) ≡ false
neutral_leaf l = ground arith

neutral-not-NotYn : (l : Level) → ¬ NotYn (symbol (neutral l))
neutral-not-NotYn level_and h = ground arith
neutral-not-NotYn level_or h = ground arith

-- Two disjoint leaves that have been joined to `r`.
module _ (t : Table) (c : IsCalculated t) (l : Level) (e : Expr) (p q : Place) (hp : InLevel l e p)
    (hq : InLevel l e q) (leaf_p : is_node l (get e p) ≡ false)
    (leaf_q : is_node l (get e q) ≡ false) (apart : Disjoint p q) where
  pub Keeps-joined :
      (n : ℕ) (r : Expr)
      → Joins t l (get e p) (get e q) r
      → Keeps t l e (put (put e p (symbol (neutral l))) q r) (n + 1)
  Keeps-joined n r j =
      let neu = symbol (neutral l) in
      let m = put e p neu in
      let mq = InLevel-put l e p q neu leaf_p hp hq in
      let same_q = get-put_ne l e p q neu hp hq apart in
      let leaf_mq = ap (is_node l) same_q ∙ leaf_q in
      let leaf_r = j.leaf leaf_p in
      record {
        same =
            value-put t c l m q r mq
            ∙ ap (λ v. join l v (expr_calc_value t (put m q neu))) j.same
            ∙ join_assoc l _ _ _
            ∙ ap
                (λ x.
                  join l (expr_calc_value t (get e p))
                    (join l (expr_calc_value t x) (expr_calc_value t (put m q neu))))
                (sym same_q)
            ∙ ap (join l (expr_calc_value t (get e p))) (sym (value-leaf t c l m q mq leaf_mq))
            ∙ sym (value-leaf t c l e p hp leaf_p);
        small = omega (
          arith,
          size-put l e p neu hp,
          size-put l m q r mq,
          ap size same_q,
          j.small,
          size-neutral l,
        );
        places = λ s hs.
            let ms = InLevel-put l e p s neu leaf_p hp hs in
            (
              InLevel-put l m q s r leaf_mq mq ms,
              nodes-put l m q s r leaf_mq leaf_r mq ms
                  ∙ nodes-put l e p s neu leaf_p (neutral_leaf l) hp hs,
            );
        unchanged = λ z. absurd (omega arith);
        reducible = λ nz red.
            let fp = InLevel-put l m q p r leaf_mq mq (InLevel-put l e p p neu leaf_p hp hp) in
            let same_p =
              get-put_ne l m q p r mq (InLevel-put l e p p neu leaf_p hp hp)
                (Disjoint-symm p q apart)
              ∙ get-put l e p neu hp in
            neutral-not-NotYn l
              (subst NotYn same_p (get-NotYn l (put m q r) p fp (Disjoint-ne_nil p q apart).0 red));
      }
