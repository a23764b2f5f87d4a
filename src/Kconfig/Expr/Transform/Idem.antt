-- ===== src/Kconfig/Expr/Transform/Idem.antt =====
-- expr_transform leaves its normal form alone, so a second pass changes nothing.
use lightbuild.Prelude.{ℕ, zero, suc, ◌≤◌, ◌≡◌, refl, sym, ap, ◌∙◌, subst, arith, some, ◌>>=◌}
use mathlib.Core.Option.{some_inj}
use lightbuild.Kconfig.Symbol.{Sym, Table, IsCalculated}
use lightbuild.Kconfig.Expr.{
  Relation, equal, unequal, Expr, symbol, not, and, or, comp, list_end, list, range,
}
use lightbuild.Kconfig.Expr.Transform.{transform_comp, negate_symbol, transform_not, expr_transform}
use lightbuild.Kconfig.Expr.Transform.Shape.{weight, weight-pos, IsNormal, IsSettled, NotConstant}
use lightbuild.Kconfig.Expr.Transform.Total.{transform_sound}

transform_comp_settled :
    (t : Table) (r : Relation) (a b : Sym) → IsSettled t r a b → transform_comp t r a b ≡ comp r a b
unfolding transform_comp
transform_comp_settled t equal a b h = ground arith
transform_comp_settled t unequal a b h = ground arith
transform_comp_settled t _ a b h = refl

negate_symbol_constant : (s : Sym) → NotConstant s → negate_symbol s ≡ not (symbol s)
negate_symbol_constant s h = ground arith

pub transform-of_IsNormal :
    (t : Table) (f : ℕ) (e : Expr) → IsNormal t e → weight e ≤ f → expr_transform t f e ≡ some e
unfolding expr_transform weight transform_not
transform-of_IsNormal t zero e n h = absurd (omega (arith, weight-pos e))
transform-of_IsNormal t (suc f) (comp r a b) n h = ap some (transform_comp_settled t r a b n)
transform-of_IsNormal t (suc f) (and a b) n h =
    rw (transform-of_IsNormal t f a n.0 (omega arith), ◌>>=◌)
      (rw (transform-of_IsNormal t f b n.1 (omega arith), ◌>>=◌) refl)
transform-of_IsNormal t (suc f) (or a b) n h =
    rw (transform-of_IsNormal t f a n.0 (omega arith), ◌>>=◌)
      (rw (transform-of_IsNormal t f b n.1 (omega arith), ◌>>=◌) refl)
transform-of_IsNormal t (suc f) (not (symbol s)) n h =
    rw (transform-of_IsNormal t f (symbol s) tt (omega arith), ◌>>=◌)
      (ap some (negate_symbol_constant s n))
transform-of_IsNormal t (suc f) (not (list_end s)) n h =
    rw (transform-of_IsNormal t f (list_end s) tt (omega arith), ◌>>=◌) refl
transform-of_IsNormal t (suc f) (not (list e s)) n h =
    rw (transform-of_IsNormal t f (list e s) tt (omega arith), ◌>>=◌) refl
transform-of_IsNormal t (suc f) (not (range a b)) n h =
    rw (transform-of_IsNormal t f (range a b) tt (omega arith), ◌>>=◌) refl
transform-of_IsNormal t (suc f) (not _) n h = absurd n
transform-of_IsNormal t (suc f) e n h = refl

-- A second expr_transform, with enough fuel again, returns the first one's result.
pub transform-transform :
    (t : Table) (f g : ℕ) (e e' : Expr)
    → IsCalculated t
    → weight e ≤ f
    → weight e ≤ g
    → expr_transform t f e ≡ some e'
    → expr_transform t g e' ≡ some e'
transform-transform t f g e e' c fits fits' eq =
    let (d, eq', same, light, normal) = transform_sound t f e c fits in
    let de : d ≡ e' = some_inj.0 (sym eq' ∙ eq) in
    subst (λ x. expr_transform t g x ≡ some x) de (transform-of_IsNormal t g d normal (omega arith))
