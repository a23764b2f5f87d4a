-- ===== src/Kconfig/Expr/Eq/Implies.antt =====
-- What menu.c relies on: eliminating the common operands of two dependencies reflects implication.
use lightbuild.Prelude.{
  ℕ, ◌+◌, ◌*◌, ◌≤◌, ◌≡◌, ◌⊎◌, refl, sym, ◌∙◌, Bool, true, ◌&&◌, arith, Option, none, some, ◌>>=◌,
  ==_iff, Bool-cases, inl, inr,
}
use lightbuild.Kconfig.Tristate.{Tristate, tri_yes, rank, expr_and, expr_or}
use lightbuild.Kconfig.Symbol.{Table, IsCalculated, symbol_yes}
use lightbuild.Kconfig.Expr.{Expr, symbol, size, expr_is_yes}
use lightbuild.Kconfig.Expr.Value.{expr_calc_value, calc_value}
use lightbuild.Kconfig.Expr.Yn.{expr_eliminate_yn}
use lightbuild.Kconfig.Expr.Yn.Laws.{value-eliminate_yn, value_yes}
use lightbuild.Kconfig.Expr.Yn.Shape.{IsReduced, eliminate_yn-IsReduced, size-eliminate_yn-le}
use lightbuild.Kconfig.Expr.Eq.{
  Level, level_and, level_or, level_of, both_level, at_level, eliminate_eq_by, eliminate_level,
  expr_eliminate_eq, expr_eq,
}
use lightbuild.Kconfig.Expr.Eq.Sound.{join, Eliminated}
use lightbuild.Kconfig.Expr.Eq.Total.{eliminate_level-Elimination, eq_by-Comparison, need-of_node}

abbrev pub Implies : Table → Expr → Expr → Type 0
Implies t e1 e2 = rank (expr_calc_value t e1) ≤ rank (expr_calc_value t e2)

join_mono : (l : Level) (c a b : Tristate) → rank a ≤ rank b → rank (join l c a) ≤ rank (join l c b)
unfolding join
join_mono level_and c a b h = unfold expr_and in ground arith
join_mono level_or c a b h = unfold expr_or in ground arith

-- Implication between what is left holds between the expressions, in both directions.
pub record Reflects (t : Table) (e1 e2 d1 d2 : Expr) : Type 0 where
  pub forth : Implies t d1 d2 → Implies t e1 e2
  pub back : Implies t d2 d1 → Implies t e2 e1
  pub shrinks : size d1 + size d2 ≤ size e1 + size e2

Reflects-of_Eliminated :
    {t : Table} {l : Level} {e1 e2 d1 d2 : Expr}
    → Eliminated t l e1 e2 d1 d2
    → Reflects t e1 e2 d1 d2
Reflects-of_Eliminated {l = l} h = record {
  forth = λ le. rw (← h.left) (rw (← h.right) (join_mono l h.common _ _ le));
  back = λ le. rw (← h.left) (rw (← h.right) (join_mono l h.common _ _ le));
  shrinks = omega (arith, h.size_left, h.size_right);
}

Reflects-trans :
    {t : Table} {e1 e2 d1 d2 c1 c2 : Expr}
    → Reflects t e1 e2 d1 d2
    → Reflects t d1 d2 c1 c2
    → Reflects t e1 e2 c1 c2
Reflects-trans h k = record {
  forth = λ le. h.forth (k.forth le);
  back = λ le. h.back (k.back le);
  shrinks = omega (arith, h.shrinks, k.shrinks);
}

Reflects-refl : (t : Table) (e1 e2 : Expr) → Reflects t e1 e2 e1 e2
Reflects-refl t e1 e2 = record { forth = λ le. le; back = λ le. le; shrinks = omega arith }

pub value-is_yes :
    (t : Table) (c : IsCalculated t) (e : Expr)
    → expr_is_yes (some e) ≡ true
    → expr_calc_value t e ≡ tri_yes
unfolding expr_is_yes
value-is_yes t c (symbol s) h = rw ((==_iff s symbol_yes).0 h) (value_yes t c)
value-is_yes t c _ h = cc

abbrev Reflected : Table → Expr → Expr → Option (Expr × Expr) → Type 0
Reflected t e1 e2 r = (d1 : Expr) × (d2 : Expr) × (r ≡ some (d1, d2)) × Reflects t e1 e2 d1 d2

module _ (t : Table) (c : IsCalculated t) (f : ℕ) where
  at_level-Reflected :
      (o : Option Level) (e1 e2 : Expr)
      → (o ≡ level_of e1) ⊎ (o ≡ level_of e2)
      → 2 * (size e1 + size e2) ≤ f
      → Reflected t e1 e2 (at_level (eliminate_level f) o e1 e2)
  at_level-Reflected none e1 e2 on fits = (e1, e2, refl, Reflects-refl t e1 e2)
  at_level-Reflected (some l) e1 e2 on fits =
      let (d1, d2, eq, h) = eliminate_level-Elimination t c f l e1 e2 (ground arith) in
      (d1, d2, eq, Reflects-of_Eliminated h)

  eliminate_eq-Reflected :
      (e1 e2 : Expr)
      → 2 * (size e1 + size e2) ≤ f
      → (d1 : Expr) × (d2 : Expr) × (expr_eliminate_eq f e1 e2
          ≡ some (expr_eliminate_yn d1, expr_eliminate_yn d2))
        × Reflects t e1 e2 d1 d2
  unfolding expr_eliminate_eq eliminate_eq_by
  eliminate_eq-Reflected e1 e2 fits =
      let (d1, d2, eq, h) = at_level-Reflected (level_of e1) e1 e2 (inl refl) fits in
      elim (Bool-cases (both_level (level_of d1) (level_of d2))) [
        | inl same ↦ (d1, d2, rw (eq, ◌>>=◌) (rw (same, ◌>>=◌) refl), h)
        | inr differ ↦
            let (c1, c2, eq', k) =
              at_level-Reflected (level_of d2) d1 d2 (inr refl) (omega (arith, h.shrinks)) in
            (c1, c2, rw (eq, ◌>>=◌) (rw (differ, ◌>>=◌) (rw (eq', ◌>>=◌) refl)), Reflects-trans h k)
      ]

  -- With fuel for the two sizes expr_eliminate_eq returns two expressions with no operand `y` or
  -- `n`, together no larger than the given ones; if one of them implies the other (has at most its
  -- value), then so do the given expressions, in either direction.
  pub eliminate_eq_sound :
      (e1 e2 : Expr)
      → 2 * (size e1 + size e2) ≤ f
      → (d1 : Expr) × (d2 : Expr) × (expr_eliminate_eq f e1 e2 ≡ some (d1, d2))
        × IsReduced d1
        × IsReduced d2
        × (Implies t d1 d2 → Implies t e1 e2)
        × (Implies t d2 d1 → Implies t e2 e1)
        × (size d1 + size d2 ≤ size e1 + size e2)
  eliminate_eq_sound e1 e2 fits =
      let (d1, d2, eq, h) = eliminate_eq-Reflected e1 e2 fits in
      (
        expr_eliminate_yn d1,
        expr_eliminate_yn d2,
        eq,
        eliminate_yn-IsReduced d1,
        eliminate_yn-IsReduced d2,
        λ le. h.forth (rw (value-eliminate_yn t c d1, value-eliminate_yn t c d2) at le),
        λ le. h.back (rw (value-eliminate_yn t c d1, value-eliminate_yn t c d2) at le),
        omega (arith, h.shrinks, size-eliminate_yn-le d1, size-eliminate_yn-le d2),
      )

  -- menu_finalize asks whether nothing is left of the second expression, `y`: then the first
  -- expression implies the second.
  pub eliminate_eq_yes :
      (e1 e2 d1 d2 : Expr)
      → 2 * (size e1 + size e2) ≤ f
      → expr_eliminate_eq f e1 e2 ≡ some (d1, d2)
      → expr_is_yes (some d2) ≡ true
      → Implies t e1 e2
  eliminate_eq_yes e1 e2 d1 d2 fits eq is_yes =
      let (x1, x2, eq', r1, r2, forth, back, small) = eliminate_eq_sound e1 e2 fits in
      let same : ◌≡◌ {A = Option (Expr × Expr)} (some (x1, x2)) (some (d1, d2)) = sym eq' ∙ eq in
      forth (ground (arith, value-is_yes t c d2 is_yes))

abbrev pub size_of : Option Expr → ℕ
size_of none = 0
size_of (some e) = size e

-- With fuel for the two sizes expr_eq returns, for NULL pointers too; and two expressions that it
-- calls equal have the same value.
pub expr_eq_sound :
    (t : Table) (f : ℕ) (p q : Option Expr)
    → IsCalculated t
    → 2 * (size_of p + size_of q) ≤ f
    → (b : Bool) × (expr_eq f p q ≡ some b) × (b ≡ true → calc_value t p ≡ calc_value t q)
unfolding expr_eq expr_is_yes
expr_eq_sound t f none none c fits = (true, refl, λ h. refl)
expr_eq_sound t f none (some e) c fits =
    (expr_is_yes (some e), refl, λ h. sym (value-is_yes t c e h))
expr_eq_sound t f (some e) none c fits =
    (expr_is_yes (some e) && true, refl, λ h. value-is_yes t c e (ground arith))
expr_eq_sound t f (some e1) (some e2) c fits =
    eq_by-Comparison t c (eliminate_level f) (size e1 + size e2)
      (λ l x y n small.
        eliminate_level-Elimination t c f l x y (omega (arith, need-of_node l x y n)))
      e1 e2 (omega arith)
