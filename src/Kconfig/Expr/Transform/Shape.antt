-- ===== src/Kconfig/Expr/Transform/Shape.antt =====
-- The normal form that expr_transform reaches, and the weight that its calls bring down.
use lightbuild.Prelude.{ℕ, suc, ◌+◌, ◌*◌, ◌≤◌, ◌<◌, ◌≡◌, ◌≢◌, ap, arith}
use lightbuild.Kconfig.Tristate.{Tristate, tri_no, tri_mod, tri_yes}
use lightbuild.Kconfig.Symbol.{
  boolean, Sym, Table, IsCalculated, symbol_no, symbol_mod, symbol_yes, symbol_of,
}
use lightbuild.Kconfig.Expr.{
  Relation, equal, unequal, Expr, symbol, not, and, or, comp, list_end, list, range,
}
use lightbuild.Kconfig.Expr.Transform.{complement, transform_comp, negate_symbol}

-- A negation weighs three times its operand, so pushing it inwards brings the weight down.
unfoldable pub weight : Expr → ℕ
weight (not e) = 3 * weight e
weight (and a b) = suc (weight a + weight b)
weight (or a b) = suc (weight a + weight b)
weight (comp r a b) = 3
weight _ = 1

pub weight-pos : (e : Expr) → 0 < weight e
unfolding weight
weight-pos (not e) = omega (arith, weight-pos e)
weight-pos _ = omega arith

abbrev pub NotConstant : Sym → Type 0
NotConstant s = (s ≢ symbol_no) × (s ≢ symbol_mod) × (s ≢ symbol_yes)

-- A BOOLEAN symbol is not tested against a constant.
abbrev pub IsSettled : Table → Relation → Sym → Sym → Type 0
IsSettled t equal a b = (t.get a).type ≡ boolean → NotConstant b
IsSettled t unequal a b = (t.get a).type ≡ boolean → NotConstant b
IsSettled t _ a b = Unit

-- What may stand under a negation: a symbol that is no constant (or a node with no value).
abbrev pub IsNegatable : Expr → Type 0
IsNegatable (symbol s) = NotConstant s
IsNegatable (list_end s) = Unit
IsNegatable (list e s) = Unit
IsNegatable (range a b) = Unit
IsNegatable _ = ⊥

abbrev pub IsNormal : Table → Expr → Type 0
IsNormal t (and a b) = IsNormal t a × IsNormal t b
IsNormal t (or a b) = IsNormal t a × IsNormal t b
IsNormal t (not e) = IsNegatable e
IsNormal t (comp r a b) = IsSettled t r a b
IsNormal t _ = Unit

pub weight-transform_comp-le :
    (t : Table) (r : Relation) (a b : Sym) → weight (transform_comp t r a b) ≤ 3
unfolding weight transform_comp
weight-transform_comp-le t r a b = ground arith

pub weight-negate_symbol-le : (s : Sym) → weight (negate_symbol s) ≤ 3
unfolding weight
weight-negate_symbol-le s = ground arith

boolean-NotConstant :
    (t : Table) (a : Sym) → IsCalculated t → (t.get a).type ≡ boolean → NotConstant a
boolean-NotConstant t a c ty =
    (λ e. not_unknown tri_no e, λ e. not_unknown tri_mod e, λ e. not_unknown tri_yes e)
  where
    not_unknown : (v : Tristate) → a ≡ symbol_of v → ⊥
    not_unknown v e = cc (ty, ap (λ s. s.type) (c.constants v), ap (λ x. (t.get x).type) e)

pub transform_comp-IsNormal :
    (t : Table) (r : Relation) (a b : Sym) → IsCalculated t → IsNormal t (transform_comp t r a b)
unfolding transform_comp
transform_comp-IsNormal t equal a b c = ground (arith, boolean-NotConstant t a c)
transform_comp-IsNormal t unequal a b c = ground (arith, boolean-NotConstant t a c)
transform_comp-IsNormal t _ a b c = tt

pub negate_symbol-IsNormal : (t : Table) (s : Sym) → IsNormal t (negate_symbol s)
negate_symbol-IsNormal t s = ground arith

pub complement-IsSettled :
    (t : Table) (r : Relation) (a b : Sym) → IsSettled t r a b → IsSettled t (complement r) a b
complement-IsSettled t equal a b h = h
complement-IsSettled t unequal a b h = h
complement-IsSettled t _ a b h = tt
