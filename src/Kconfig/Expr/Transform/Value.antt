-- ===== src/Kconfig/Expr/Transform/Value.antt =====
-- The rewriting steps of expr_transform keep the value of the node.
use lightbuild.Prelude.{◌≡◌, refl, ap, true, arith, Bool-cases, inl, inr, Ordering}
use lightbuild.Kconfig.Tristate.{tri_no, tri_mod, tri_yes, expr_not, of_bool}
use lightbuild.Kconfig.Symbol.{SymbolType, boolean, Sym, Table, IsCalculated, type_eq}
use lightbuild.Kconfig.Expr.{Relation, equal, unequal, comp}
use lightbuild.Kconfig.Expr.Value.{expr_calc_value, holds}
use lightbuild.Kconfig.Expr.Value.Constants.{symbol_order-constant}
use lightbuild.Kconfig.Expr.Transform.{complement, transform_comp, negate_symbol}

pub type_eq-eq : (ty ty' : SymbolType) → type_eq ty ty' ≡ true → ty ≡ ty'
type_eq-eq ty ty' h = ground arith

pub holds-complement :
    (r : Relation) (o : Ordering)
    → of_bool (holds (complement r) o) ≡ expr_not (of_bool (holds r o))
unfolding expr_not
holds-complement r o = ground arith

module _ (t : Table) (c : IsCalculated t) where
  pub value-transform_comp :
      (r : Relation) (a b : Sym)
      → expr_calc_value t (transform_comp t r a b) ≡ expr_calc_value t (comp r a b)
  unfolding transform_comp expr_calc_value expr_not
  value-transform_comp equal a b = elim (Bool-cases (type_eq (t.get a).type boolean)) [
    | inl is ↦
        let ty = type_eq-eq (t.get a).type boolean is in
        ground (
          arith,
          c.boolean_mod a ty,
          symbol_order-constant t a tri_no c (inl ty),
          symbol_order-constant t a tri_mod c (inl ty),
          symbol_order-constant t a tri_yes c (inl ty),
          ap (λ s. s.tri) (c.constants tri_no),
          ap (λ s. s.tri) (c.constants tri_yes),
        )
    | inr isnt ↦ rw isnt refl
  ]
  value-transform_comp unequal a b = elim (Bool-cases (type_eq (t.get a).type boolean)) [
    | inl is ↦
        let ty = type_eq-eq (t.get a).type boolean is in
        ground (
          arith,
          c.boolean_mod a ty,
          symbol_order-constant t a tri_no c (inl ty),
          symbol_order-constant t a tri_mod c (inl ty),
          symbol_order-constant t a tri_yes c (inl ty),
          ap (λ s. s.tri) (c.constants tri_no),
          ap (λ s. s.tri) (c.constants tri_yes),
        )
    | inr isnt ↦ rw isnt refl
  ]
  value-transform_comp _ a b = refl

  pub value-negate_symbol :
      (s : Sym) → expr_calc_value t (negate_symbol s) ≡ expr_not ((t.get s).tri)
  unfolding expr_calc_value expr_not
  value-negate_symbol s = ground (
    arith,
    ap (λ s. s.tri) (c.constants tri_no),
    ap (λ s. s.tri) (c.constants tri_mod),
    ap (λ s. s.tri) (c.constants tri_yes),
  )
