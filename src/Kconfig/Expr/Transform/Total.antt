-- ===== src/Kconfig/Expr/Transform/Total.antt =====
-- expr_transform with fuel at least the weight: it returns, with the same value, in normal form.
use lightbuild.Prelude.{ℕ, zero, suc, ◌≤◌, ◌≡◌, refl, sym, ap, ap₂, ◌∙◌, arith, Option, some, ◌>>=◌}
use lightbuild.Kconfig.Tristate.{Tristate, expr_and, expr_or, expr_not}
use lightbuild.Kconfig.Tristate
use lightbuild.Kconfig.Symbol.{Table, IsCalculated}
use lightbuild.Kconfig.Expr.{Expr, symbol, not, and, or, comp, list_end, list, range}
use lightbuild.Kconfig.Expr.Value.{expr_calc_value, symbol_order}
use lightbuild.Kconfig.Expr.Transform.{
  complement, transform_comp, negate_symbol, transform_not, expr_transform,
}
use lightbuild.Kconfig.Expr.Transform.Value.{
  holds-complement, value-transform_comp, value-negate_symbol,
}
use lightbuild.Kconfig.Expr.Transform.Shape.{
  weight, weight-pos, IsNormal, weight-transform_comp-le, weight-negate_symbol-le,
  transform_comp-IsNormal, negate_symbol-IsNormal, complement-IsSettled,
}

-- `e'` stands for `e`.
pub record Transforms (t : Table) (e e' : Expr) : Type 0 where
  pub same : expr_calc_value t e' ≡ expr_calc_value t e
  pub light : weight e' ≤ weight e
  pub normal : IsNormal t e'

abbrev pub Result : Table → Expr → Option Expr → Type 0
Result t e r = (e' : Expr) × (r ≡ some e') × Transforms t e e'

-- A result for an expression of the same value and no greater weight.
Result-of :
    (t : Table) (e d : Expr) {r : Option Expr}
    → expr_calc_value t d ≡ expr_calc_value t e
    → weight d ≤ weight e
    → Result t d r
    → Result t e r
Result-of t e d same light (e', eq, h) =
    (e', eq, record { same = h.same ∙ same; light = omega (arith, h.light); normal = h.normal })

module _ (t : Table) (c : IsCalculated t) where
  -- Behind the operand's call, `again` being the calls with the fuel that is left.
  transform_not-Result :
      (f : ℕ) (e : Expr)
      → ((d : Expr) → weight d ≤ f → Result t d (expr_transform t f d))
      → weight (not e) ≤ suc f
      → IsNormal t e
      → Result t (not e) (transform_not (expr_transform t f) e)
  unfolding transform_not weight expr_calc_value
  transform_not-Result f (symbol s) again fits n = (
    negate_symbol s,
    refl,
    record {
      same = value-negate_symbol t c s;
      light = weight-negate_symbol-le s;
      normal = negate_symbol-IsNormal t s;
    },
  )
  transform_not-Result f (comp r a b) again fits n = (
    comp (complement r) a b,
    refl,
    record {
      same = holds-complement r (symbol_order t a b);
      light = omega arith;
      normal = complement-IsSettled t r a b n;
    },
  )
  transform_not-Result f (not e) again fits n =
      Result-of t (not (not e)) e (sym (Tristate.not-not _)) (omega arith)
        (again e (omega (arith, weight-pos e)))
  transform_not-Result f (and a b) again fits n =
      Result-of t (not (and a b)) (or (not a) (not b)) (sym (Tristate.not-and _ _)) (omega arith)
        (again (or (not a) (not b)) (omega arith))
  transform_not-Result f (or a b) again fits n =
      Result-of t (not (or a b)) (and (not a) (not b)) (sym (Tristate.not-or _ _)) (omega arith)
        (again (and (not a) (not b)) (omega arith))
  transform_not-Result f (list_end s) again fits n =
      (not (list_end s), refl, record { same = refl; light = omega arith; normal = tt })
  transform_not-Result f (list e s) again fits n =
      (not (list e s), refl, record { same = refl; light = omega arith; normal = tt })
  transform_not-Result f (range a b) again fits n =
      (not (range a b), refl, record { same = refl; light = omega arith; normal = tt })

  transform-Result : (f : ℕ) (e : Expr) → weight e ≤ f → Result t e (expr_transform t f e)
  unfolding expr_transform weight expr_calc_value
  transform-Result zero e h = absurd (omega (arith, weight-pos e))
  transform-Result (suc f) (symbol s) h =
      (symbol s, refl, record { same = refl; light = omega arith; normal = tt })
  transform-Result (suc f) (comp r a b) h = (
    transform_comp t r a b,
    refl,
    record {
      same = value-transform_comp t c r a b;
      light = weight-transform_comp-le t r a b;
      normal = transform_comp-IsNormal t r a b c;
    },
  )
  transform-Result (suc f) (and a b) h =
      let (a', ea, ha) = transform-Result f a (omega arith) in
      let (b', eb, hb) = transform-Result f b (omega arith) in
      (
        and a' b',
        rw (ea, ◌>>=◌) (rw (eb, ◌>>=◌) refl),
        record {
          same = ap₂ expr_and ha.same hb.same;
          light = omega (arith, ha.light, hb.light);
          normal = (ha.normal, hb.normal);
        },
      )
  transform-Result (suc f) (or a b) h =
      let (a', ea, ha) = transform-Result f a (omega arith) in
      let (b', eb, hb) = transform-Result f b (omega arith) in
      (
        or a' b',
        rw (ea, ◌>>=◌) (rw (eb, ◌>>=◌) refl),
        record {
          same = ap₂ expr_or ha.same hb.same;
          light = omega (arith, ha.light, hb.light);
          normal = (ha.normal, hb.normal);
        },
      )
  transform-Result (suc f) (not e) h =
      let (e', ee, he) = transform-Result f e (omega (arith, weight-pos e)) in
      rw (ee, ◌>>=◌)
        (Result-of t (not e) (not e') (ap expr_not he.same) (omega (arith, he.light))
          (transform_not-Result f e' (transform-Result f) (omega (arith, he.light)) he.normal))
  transform-Result (suc f) e h = (e, refl, record { same = refl; light = omega arith; normal = tt })

-- With fuel for the weight (three for each comparison and negation over it) expr_transform returns
-- an expression of the same value and no greater weight, in which only symbols other than `y`, `m`
-- and `n` are negated and no BOOLEAN symbol is tested against a constant by = or !=.
pub transform_sound :
    (t : Table) (f : ℕ) (e : Expr)
    → IsCalculated t
    → weight e ≤ f
    → (e' : Expr) × (expr_transform t f e ≡ some e')
      × (expr_calc_value t e' ≡ expr_calc_value t e)
      × (weight e' ≤ weight e)
      × IsNormal t e'
transform_sound t f e c fits =
    let (e', eq, h) = transform-Result t c f e fits in (e', eq, h.same, h.light, h.normal)
