-- ===== src/Kconfig/Expr/Dups/Total.antt =====
-- expr_eliminate_dups1 and expr_eliminate_dups by induction on the fuel and the rounds.
use lightbuild.Prelude.{
  ℕ, zero, suc, ◌+◌, ◌*◌, ◌≤◌, ◌<◌, ◌≡◌, ◌≢◌, refl, sym, ap₂, ◌∙◌, subst, true, false, arith,
  Option, none, some, inl, inr, [], ◌∷◌, ◌++◌, ◌>>=◌, Bool-cases, ◌==◌, ==_iff,
}
use native.Mathlib.Decide.{dec_lt}
use lightbuild.Kconfig.Symbol.{Table, IsCalculated}
use lightbuild.Kconfig.Expr.{Expr, symbol, and, or, size}
use lightbuild.Kconfig.Expr.Value.{expr_calc_value}
use lightbuild.Kconfig.Expr.Yn.{expr_eliminate_yn}
use lightbuild.Kconfig.Expr.Yn.Laws.{value-eliminate_yn}
use lightbuild.Kconfig.Expr.Yn.Shape.{IsReduced, IsReduced-of_size}
use lightbuild.Kconfig.Expr.Eq.{Level, level_and, level_or, level_of, neutral, is_node}
use lightbuild.Kconfig.Expr.Yn.Shape.{size-pos}
use lightbuild.Kconfig.Expr.Dups.{
  left, right, Place, get, put, same_place, Walk, within_leaf, joined, compare_leaves, dups_leaves,
  eliminate_dups1, dups_pass, expr_eliminate_dups,
}
use lightbuild.Kconfig.Expr.Dups.Rules.{ConstantsDiffer}
use lightbuild.Kconfig.Expr.Dups.Join.{Joins, expr_join_sound}
use lightbuild.Kconfig.Expr.Dups.Region.{InLevel, Disjoint, nodes, size-get-lt}
use lightbuild.Kconfig.Expr.Dups.Leaves.{leaf-nodes, leaves-Disjoint, Disjoint-ne_nil}
use lightbuild.Kconfig.Expr.Dups.Walk.{
  Keeps, Kept, Keeps-refl, Keeps-trans, Keeps-put, Keeps-joined, nodes-leaf,
}

nodes-le-size : (l : Level) (e : Expr) → nodes l e ≤ size e
unfolding nodes size
nodes-le-size level_and (and a b) =
    omega (arith, nodes-le-size level_and a, nodes-le-size level_and b)
nodes-le-size level_or (or a b) = omega (arith, nodes-le-size level_or a, nodes-le-size level_or b)
nodes-le-size l e = omega arith

-- Fuel for the walks within leaves of at most this size.
abbrev pub budget : ℕ → ℕ
budget zero = 0
budget (suc s) = budget s + 2 * suc s + 1

module _ (t : Table) (c : IsCalculated t) (d : ConstantsDiffer t) where
  within_leaf-Kept :
      (go : Walk) (l : Level) (e : Expr) (p : Place) (o : Option Level)
      → InLevel l e p
      → is_node l (get e p) ≡ false
      → level_of (get e p) ≡ o
      → ((l' : Level) → o ≡ some l' → Kept t l' (get e p) (go l' [] [] (get e p)))
      → Kept t l e (within_leaf go e p o)
  within_leaf-Kept go l e p none hp leaf at walks = (e, 0, refl, Keeps-refl t l e)
  within_leaf-Kept go l e p (some l') hp leaf at walks =
      let (x, n, eq, h) = walks l' refl in
      (put e p x, n, rw (eq, ◌>>=◌) refl, Keeps-put t c l e p hp leaf l' x n at h)

  joined-Kept :
      (l : Level) (p q : Place) (e x : Expr) (n : ℕ) (o : Option Expr)
      → Keeps t l e x n
      → InLevel l x p
      → InLevel l x q
      → is_node l (get x p) ≡ false
      → is_node l (get x q) ≡ false
      → Disjoint p q
      → ((r : Expr) → o ≡ some r → Joins t l (get x p) (get x q) r)
      → Kept t l e (some (joined l x p q n o))
  joined-Kept l p q e x n none h ip iq lp lq apart joins = (x, n, refl, h)
  joined-Kept l p q e x n (some r) h ip iq lp lq apart joins = (
    put (put x p (symbol (neutral l))) q r,
    n + 1,
    refl,
    Keeps-trans h (Keeps-joined t c l x p q ip iq lp lq apart 0 r (joins r refl)),
  )

  compare_leaves-Kept :
      (go : Walk) (l : Level) (p q : Place) (e : Expr)
      → InLevel l e p
      → InLevel l e q
      → is_node l (get e p) ≡ false
      → is_node l (get e q) ≡ false
      → Disjoint p q
      → ((l' : Level) → level_of (get e p) ≡ some l' → Kept t l' (get e p) (go l' [] [] (get e p)))
      → Kept t l e (compare_leaves t go l p q e)
  compare_leaves-Kept go l p q e hp hq leaf_p leaf_q apart walks =
      let (x, n, eq, h) = within_leaf-Kept go l e p (level_of (get e p)) hp leaf_p refl walks in
      let (ip, np) = h.places p hp in
      let (iq, nq) = h.places q hq in
      let lp = nodes-leaf l (get x p) (np ∙ leaf-nodes l (get e p) leaf_p) in
      let lq = nodes-leaf l (get x q) (nq ∙ leaf-nodes l (get e q) leaf_q) in
      let (o, eq', joins) =
        expr_join_sound t c d l (2 * (size (get x p) + size (get x q))) (get x p) (get x q)
          (omega arith) in
      rw (eq, ◌>>=◌) (rw (eq', ◌>>=◌) (joined-Kept l p q e x n o h ip iq lp lq apart joins))

-- The operands of a node of the level, at their places.
node_places :
    (l : Level) (e : Expr) → is_node l e ≡ true → InLevel l e (left ∷ []) × InLevel l e (right ∷ [])
node_places level_and (and a b) n = (tt, tt)
node_places level_or (or a b) n = (tt, tt)
node_places _ _ n = absurd (cc)

operand-InLevel :
    (l : Level) (e : Expr) (p : Place)
    → is_node l (get e p) ≡ true
    → InLevel l e p
    → InLevel l e (p ++ left ∷ []) × InLevel l e (p ++ right ∷ [])
unfolding get
operand-InLevel l e [] n h = node_places l e n
operand-InLevel level_and (and a b) (left ∷ p) n h = operand-InLevel level_and a p n h
operand-InLevel level_and (and a b) (right ∷ p) n h = operand-InLevel level_and b p n h
operand-InLevel level_or (or a b) (left ∷ p) n h = operand-InLevel level_or a p n h
operand-InLevel level_or (or a b) (right ∷ p) n h = operand-InLevel level_or b p n h
operand-InLevel l e (s ∷ p) n h = absurd h

node_nodes :
    (l : Level) (e : Expr)
    → is_node l e ≡ true
    → nodes l e ≡ suc (nodes l (get e (left ∷ [])) + nodes l (get e (right ∷ [])))
unfolding get nodes
node_nodes level_and (and a b) n = refl
node_nodes level_or (or a b) n = refl
node_nodes _ _ n = absurd (cc)

operand-nodes :
    (l : Level) (e : Expr) (p : Place)
    → is_node l (get e p) ≡ true
    → InLevel l e p
    → nodes l (get e p) ≡ suc (nodes l (get e (p ++ left ∷ [])) + nodes l (get e (p ++ right ∷ [])))
unfolding get
operand-nodes l e [] n h = node_nodes l e n
operand-nodes level_and (and a b) (left ∷ p) n h = operand-nodes level_and a p n h
operand-nodes level_and (and a b) (right ∷ p) n h = operand-nodes level_and b p n h
operand-nodes level_or (or a b) (left ∷ p) n h = operand-nodes level_or a p n h
operand-nodes level_or (or a b) (right ∷ p) n h = operand-nodes level_or b p n h
operand-nodes l e (s ∷ p) n h = absurd h

-- The walk within a leaf has the fuel that it needs.
leaf_walk :
    (t : Table) (f s : ℕ) (l : Level) (x : Expr)
    → ((s' : ℕ)
        → size x ≤ suc s'
        → nodes l (get x []) + nodes l (get x []) + suc (budget s') ≤ f
        → Kept t l x (eliminate_dups1 t f l [] [] x))
    → size x ≤ s
    → budget s ≤ f
    → Kept t l x (eliminate_dups1 t f l [] [] x)
unfolding get
leaf_walk t f zero l x walk small fits = absurd (omega (arith, size-pos x))
leaf_walk t f (suc s) l x walk small fits = walk s small (omega (arith, nodes-le-size l x))

smaller : (x : Expr) → ¬ IsReduced x → size (expr_eliminate_yn x) < size x
smaller x not_reduced = elim (dec_lt (size (expr_eliminate_yn x)) (size x)) [
  | yes lt ↦ lt
  | no ge ↦ absurd (not_reduced (IsReduced-of_size x (omega arith)))
]

module _ (t : Table) (c : IsCalculated t) (d : ConstantsDiffer t) where
  eliminate_dups1-Kept :
      (f s : ℕ) (l : Level) (p q : Place) (e : Expr)
      → size e ≤ suc s
      → nodes l (get e p) + nodes l (get e q) + suc (budget s) ≤ f
      → InLevel l e p
      → InLevel l e q
      → Kept t l e (eliminate_dups1 t f l p q e)
  unfolding eliminate_dups1 dups_leaves
  eliminate_dups1-Kept zero s l p q e small fits hp hq = absurd (omega arith)
  eliminate_dups1-Kept (suc f) s l p q e small fits hp hq =
      elim (Bool-cases (is_node l (get e p))) [
        | inl node ↦
            let (il, ir) = operand-InLevel l e p node hp in
            let count = operand-nodes l e p node hp in
            let (x, n, eq, h) =
              eliminate_dups1-Kept f s l (p ++ left ∷ []) q e small (omega arith) il hq in
            let (ir', nr) = h.places (p ++ right ∷ []) ir in
            let (iq', nq) = h.places q hq in
            let (y, m, eq', k) =
              eliminate_dups1-Kept f s l (p ++ right ∷ []) q x (omega (arith, h.small))
                (omega arith) ir' iq' in
            (y, n + m, rw node (rw (eq, ◌>>=◌) (rw (eq', ◌>>=◌) refl)), Keeps-trans h k)
        | inr leaf_p ↦ elim (Bool-cases (is_node l (get e q))) [
          | inl node ↦
              let (il, ir) = operand-InLevel l e q node hq in
              let count = operand-nodes l e q node hq in
              let (x, n, eq, h) =
                eliminate_dups1-Kept f s l p (q ++ left ∷ []) e small (omega arith) hp il in
              let (ir', nr) = h.places (q ++ right ∷ []) ir in
              let (ip', np) = h.places p hp in
              let (y, m, eq', k) =
                eliminate_dups1-Kept f s l p (q ++ right ∷ []) x (omega (arith, h.small))
                  (omega arith) ip' ir' in
              (y, n + m, rw (leaf_p, node) (rw (eq, ◌>>=◌) (rw (eq', ◌>>=◌) refl)), Keeps-trans h k)
          | inr leaf_q ↦ elim (Bool-cases (same_place p q)) [
            | inl same ↦ (e, 0, rw (leaf_p, leaf_q) (rw same refl), Keeps-refl t l e)
            | inr differ ↦
                rw (leaf_p, leaf_q)
                  (rw differ (
                    compare_leaves-Kept t c d (eliminate_dups1 t f) l p q e hp hq leaf_p leaf_q
                      (leaves-Disjoint l e p q leaf_p leaf_q hp hq differ)
                      (λ l' at.
                        leaf_walk t f s l' (get e p)
                          (λ s' small' fits'.
                            eliminate_dups1-Kept f s' l' [] [] (get e p) small' fits' tt tt)
                          (omega (
                            arith,
                            size-get-lt l e p hp
                                (Disjoint-ne_nil p q
                                  (leaves-Disjoint l e p q leaf_p leaf_q hp hq differ)).0,
                          ))
                          (omega arith))))
          ]
        ]
      ]

  -- Fuel for one round on an expression of at most this size.
  pass-Kept :
      (f s : ℕ) (e : Expr) (o : Option Level)
      → level_of e ≡ o
      → size e ≤ s
      → budget (suc s) ≤ f
      → (x : Expr) × (n : ℕ) × (dups_pass t f e o ≡ some (x, n))
        × (expr_calc_value t x ≡ expr_calc_value t e)
        × (size x ≤ size e)
        × (n ≡ 0 → x ≡ e)
        × (n ≢ 0 → ¬ IsReduced x)
  unfolding get
  pass-Kept f s e none at small fits =
      (e, 0, refl, refl, omega arith, λ z. refl, λ ne. absurd (ne refl))
  pass-Kept f s e (some l) at small fits =
      let (x, n, eq, h) =
        eliminate_dups1-Kept f s l [] [] e (omega arith) (omega (arith, nodes-le-size l e)) tt tt in
      (x, n, eq, h.same, h.small, h.unchanged, h.reducible)

  -- Over calculated symbols, and where no symbol compares equal to two distinct constant symbols (as a symbol
  -- with the value 1 does to "1" and "0x1"): with enough fuel and more rounds than nodes
  -- expr_eliminate_dups returns an expression with the same value and no more nodes, on which another
  -- round of the loop changes nothing.
  pub eliminate_dups_sound :
      (f s rounds : ℕ) (e : Expr)
      → size e ≤ s
      → size e < rounds
      → budget (suc s) ≤ f
      → (x : Expr) × (expr_eliminate_dups t f rounds e ≡ some x)
        × (expr_calc_value t x ≡ expr_calc_value t e)
        × (size x ≤ size e)
        × (dups_pass t f x (level_of x) ≡ some (x, 0))
  unfolding expr_eliminate_dups
  eliminate_dups_sound f s zero e small more fits = absurd (omega arith)
  eliminate_dups_sound f s (suc rounds) e small more fits =
      let (x, n, eq, same, le, unchanged, reducible) =
        pass-Kept f s e (level_of e) refl small fits in
      elim (Bool-cases (n == 0)) [
        | inl done ↦
            let n0 : n ≡ 0 = (==_iff n 0).0 done in
            let xe = unchanged n0 in
            (
              x,
              rw (eq, ◌>>=◌) (rw done refl),
              same,
              le,
              subst (λ y. dups_pass t f y (level_of y) ≡ some (y, 0)) (sym xe)
                  (eq ∙ ap₂ (λ y m. some (y, m)) xe n0),
            )
        | inr again ↦
            let lt = smaller x (reducible (λ z. ground arith)) in
            let (y, eq', same', le', settled) =
              eliminate_dups_sound f s rounds (expr_eliminate_yn x) (omega (arith, lt))
                (omega (arith, lt)) fits in
            (
              y,
              rw (eq, ◌>>=◌) (rw again eq'),
              same' ∙ value-eliminate_yn t c x ∙ same,
              omega (arith, lt),
              settled,
            )
      ]
