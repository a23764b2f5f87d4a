-- ===== src/Kconfig/Expr/Eq/Total.antt =====
-- expr_eq and the walks by induction on the fuel: they return, and their results are sound.
use lightbuild.Prelude.{
  ℕ, zero, suc, ◌+◌, ◌*◌, ◌≤◌, ◌≡◌, refl, sym, ap, ◌∙◌, subst, true, false, ◌&&◌, ◌||◌, arith, some,
  ◌>>=◌, ◌==◌, ==_iff, Bool-cases, Option-cases, inl, inr,
}
use lightbuild.Kconfig.Tristate.{expr_not}
use lightbuild.Kconfig.Symbol.{Table, IsCalculated, symbol_no, symbol_yes}
use lightbuild.Kconfig.Expr.{Expr, symbol, not, and, or, comp, size, is_symbol}
use lightbuild.Kconfig.Expr.Value.{expr_calc_value}
use lightbuild.Kconfig.Expr.Yn.{expr_eliminate_yn}
use lightbuild.Kconfig.Expr.Yn.Laws.{value_no, value_yes, value-eliminate_yn}
use lightbuild.Kconfig.Expr.Eq.{
  Level, level_and, level_or, operands, node, level_of, neutral, relation_eq, same_symbol,
  both_level, is_node, Eliminate, eliminate_eq_by, eq_by, eliminate_leaves, eliminate_level,
}
use lightbuild.Kconfig.Expr.Eq.Sound.{
  join, unit, join-unit, operands-node, is_node-of-operands, size-node, Eliminated, Eliminated-flip,
  Eliminated-refl, Eliminated-node, need, Elimination, Comparison, relation_eq-eq, same_symbol-eq,
}
use lightbuild.Kconfig.Expr.Yn.Shape.{size-pos}

both_level-of_nodes :
    (l : Level) (d1 d2 : Expr)
    → is_node l d1 ≡ true
    → is_node l d2 ≡ true
    → both_level (level_of d1) (level_of d2) ≡ true
both_level-of_nodes l d1 d2 h k = ground arith

value-of-Eliminated :
    (t : Table) (c : IsCalculated t) (l : Level) (e1 e2 d1 d2 : Expr)
    → Eliminated t l e1 e2 d1 d2
    → same_symbol (expr_eliminate_yn d1) (expr_eliminate_yn d2) ≡ true
    → expr_calc_value t e1 ≡ expr_calc_value t e2
value-of-Eliminated t c l e1 e2 d1 d2 h s =
    let same =
      sym (value-eliminate_yn t c d1)
      ∙ ap (expr_calc_value t) (same_symbol-eq _ _ s)
      ∙ value-eliminate_yn t c d2 in
    sym h.left ∙ ap (join l h.common) same ∙ h.right

-- Comparing, given walks that are sound up to size `k`.
module _ (t : Table) (c : IsCalculated t) (go : Eliminate) (k : ℕ)
    (walks : (l : Level) (e1 e2 : Expr)
      → is_node l e1 ≡ true
      → size e1 + size e2 ≤ k
      → Elimination t l e1 e2 (go l e1 e2)) where
  eliminate_eq_by-level :
      (l : Level) (e1 e2 : Expr)
      → is_node l e1 ≡ true
      → is_node l e2 ≡ true
      → size e1 + size e2 ≤ k
      → (d1 : Expr) × (d2 : Expr) × (eliminate_eq_by go e1 e2
          ≡ some (expr_eliminate_yn d1, expr_eliminate_yn d2))
        × Eliminated t l e1 e2 d1 d2
  unfolding eliminate_eq_by
  eliminate_eq_by-level l e1 e2 n1 n2 fits =
      let (d1, d2, eq, h) = walks l e1 e2 n1 fits in
      let both = both_level-of_nodes l d1 d2 (h.node_left ∙ n1) (h.node_right ∙ n2) in
      (d1, d2, rw (level_of-node l e1 n1) (rw (eq, ◌>>=◌) (rw (both, ◌>>=◌) refl)), h)
    where
      level_of-node : (l : Level) (e : Expr) → is_node l e ≡ true → level_of e ≡ some l
      level_of-node l e h = ground arith

  pub eq_by-Comparison :
      (e1 e2 : Expr) → size e1 + size e2 ≤ k → Comparison t e1 e2 (eq_by go e1 e2)
  unfolding eq_by size expr_calc_value
  eq_by-Comparison (comp r a b) (comp r' a' b') fits =
      (relation_eq r r' && (a == a' && b == b'), refl, λ h. ground (arith, relation_eq-eq r r'))
  eq_by-Comparison (symbol a) (symbol b) fits =
      (a == b, refl, λ h. ap (λ s. (t.get s).tri) ((==_iff a b).0 h))
  eq_by-Comparison (not a) (not b) fits =
      let (r, eq, h) = eq_by-Comparison a b (omega arith) in (r, eq, λ s. ap expr_not (h s))
  eq_by-Comparison (and a b) (and a' b') fits =
      let (d1, d2, eq, h) = eliminate_eq_by-level level_and (and a b) (and a' b') refl refl fits in
      (
        same_symbol (expr_eliminate_yn d1) (expr_eliminate_yn d2),
        rw (eq, ◌>>=◌) refl,
        value-of-Eliminated t c level_and (and a b) (and a' b') d1 d2 h,
      )
  eq_by-Comparison (or a b) (or a' b') fits =
      let (d1, d2, eq, h) = eliminate_eq_by-level level_or (or a b) (or a' b') refl refl fits in
      (
        same_symbol (expr_eliminate_yn d1) (expr_eliminate_yn d2),
        rw (eq, ◌>>=◌) refl,
        value-of-Eliminated t c level_or (or a b) (or a' b') d1 d2 h,
      )
  eq_by-Comparison _ _ fits = (false, refl, λ h. cc)

  Eliminated-leaves :
      (l : Level) (e1 e2 : Expr)
      → is_node l e1 ≡ false
      → is_node l e2 ≡ false
      → expr_calc_value t e1 ≡ expr_calc_value t e2
      → Eliminated t l e1 e2 (symbol (neutral l)) (symbol (neutral l))
  Eliminated-leaves l e1 e2 n1 n2 same = record {
    common = expr_calc_value t e1;
    left = ap (join l (expr_calc_value t e1)) (value-neutral l) ∙ join-unit l _;
    right = ap (join l (expr_calc_value t e1)) (value-neutral l) ∙ join-unit l _ ∙ same;
    size_left = unfold size in size-pos e1;
    size_right = unfold size in size-pos e2;
    node_left = no_node l ∙ sym n1;
    node_right = no_node l ∙ sym n2;
  }
    where
      value-neutral : (l : Level) → expr_calc_value t (symbol (neutral l)) ≡ unit l
      value-neutral level_and = value_yes t c
      value-neutral level_or = value_no t c

      no_node : (l : Level) → is_node l (symbol (neutral l)) ≡ false
      no_node level_and = refl
      no_node level_or = refl

  eliminate_leaves-Elimination :
      (l : Level) (e1 e2 : Expr)
      → is_node l e1 ≡ false
      → is_node l e2 ≡ false
      → size e1 + size e2 ≤ k
      → Elimination t l e1 e2 (eliminate_leaves go l e1 e2)
  eliminate_leaves-Elimination l e1 e2 n1 n2 fits =
      elim (Bool-cases (same_symbol e1 e2 && (is_symbol e1 symbol_yes || is_symbol e1 symbol_no))) [
        | inl skip ↦ (e1, e2, rw skip refl, Eliminated-refl e1 e2)
        | inr compare ↦
            let (b, eq, h) = eq_by-Comparison e1 e2 fits in
            elim (Bool-cases b) [
              | inl same ↦ (
                symbol (neutral l),
                symbol (neutral l),
                rw compare (rw (eq, ◌>>=◌) (rw same refl)),
                Eliminated-leaves l e1 e2 n1 n2 (h same),
              )
              | inr differ ↦
                  (e1, e2, rw compare (rw (eq, ◌>>=◌) (rw differ refl)), Eliminated-refl e1 e2)
            ]
      ]

pub need-le : (l : Level) (e1 e2 : Expr) → need l e1 e2 ≤ 2 * (size e1 + size e2) + 1
need-le l e1 e2 = ground arith

pub le-need : (l : Level) (e1 e2 : Expr) → 2 * (size e1 + size e2) ≤ need l e1 e2
le-need l e1 e2 = ground arith

pub need-of_node :
    (l : Level) (e1 e2 : Expr) → is_node l e1 ≡ true → need l e1 e2 ≡ 2 * (size e1 + size e2)
need-of_node l e1 e2 n = ground arith

need-of_leaves :
    (l : Level) (e1 e2 : Expr)
    → is_node l e1 ≡ false
    → is_node l e2 ≡ false
    → need l e1 e2 ≡ 2 * (size e1 + size e2) + 1
need-of_leaves l e1 e2 n m = ground arith

size-operands :
    (l : Level) (e a b : Expr) → operands l e ≡ some (a, b) → size e ≡ suc (size a + size b)
size-operands l e a b h = ap size (operands-node l e a b h) ∙ size-node l a b

module _ (t : Table) (c : IsCalculated t) where
  pub eliminate_level-Elimination :
      (f : ℕ) (l : Level) (e1 e2 : Expr)
      → need l e1 e2 ≤ f
      → Elimination t l e1 e2 (eliminate_level f l e1 e2)
  unfolding eliminate_level
  eliminate_level-Elimination zero l e1 e2 h = absurd (omega (arith, size-pos e1, le-need l e1 e2))
  eliminate_level-Elimination (suc f) l e1 e2 h = elim (Option-cases (operands l e1)) [
    | inr ((a, b), ea) ↦
        let s = size-operands l e1 a b ea in
        let (a', e', eq, x) =
          eliminate_level-Elimination f l a e2
            (omega (arith, need-le l a e2, le-need l e1 e2, size-pos b)) in
        let (b', e'', eq', y) =
          eliminate_level-Elimination f l b e'
            (omega (arith, need-le l b e', le-need l e1 e2, size-pos a, x.size_right)) in
        (
          node l a' b',
          e'',
          rw (ea, eliminate_level) (rw (eq, ◌>>=◌) (rw (eq', ◌>>=◌) refl)),
          subst (λ e. Eliminated t l e e2 (node l a' b') e'') (sym (operands-node l e1 a b ea))
              (Eliminated-node x y),
        )
    | inl none1 ↦ elim (Option-cases (operands l e2)) [
      | inr ((a, b), eb) ↦
          let s = size-operands l e2 a b eb in
          let (e', a', eq, x) =
            eliminate_level-Elimination f l e1 a
              (omega (arith, need-le l e1 a, le-need l e1 e2, size-pos b)) in
          let (e'', b', eq', y) =
            eliminate_level-Elimination f l e' b
              (omega (arith, need-le l e' b, le-need l e1 e2, size-pos a, x.size_left)) in
          (
            e'',
            node l a' b',
            rw (none1, eliminate_level)
                (rw (eb, eliminate_level) (rw (eq, ◌>>=◌) (rw (eq', ◌>>=◌) refl))),
            subst (λ e. Eliminated t l e1 e e'' (node l a' b')) (sym (operands-node l e2 a b eb))
                (Eliminated-flip (Eliminated-node (Eliminated-flip x) (Eliminated-flip y))),
          )
      | inl none2 ↦
          let n1 = is_node-of-operands l e1 none1 in
          let n2 = is_node-of-operands l e2 none2 in
          rw (none1, eliminate_level)
            (rw (none2, eliminate_level)
              (eliminate_leaves-Elimination t c (eliminate_level f) (size e1 + size e2)
                (λ l' x y n fits.
                  eliminate_level-Elimination f l' x y
                    (omega (arith, need-of_node l' x y n, need-of_leaves l e1 e2 n1 n2)))
                l e1 e2 n1 n2 (omega arith)))
    ]
  ]
