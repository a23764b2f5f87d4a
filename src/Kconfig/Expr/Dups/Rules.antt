-- ===== src/Kconfig/Expr/Dups/Rules.antt =====
-- The rules of expr_join_or and expr_join_and keep the value of the disjunction or conjunction.
use lightbuild.Prelude.{◌≡◌, ◌≢◌, ap, true, false, arith, some}
use lightbuild.Kconfig.Tristate.{tri_no, tri_mod, tri_yes, expr_and, expr_or, expr_not, tri_eq}
use lightbuild.Kconfig.Symbol.{
  boolean, Sym, Table, IsCalculated, IsTristateLike, symbol_no, symbol_mod, symbol_yes,
}
use lightbuild.Kconfig.Expr.{equal, unequal, Expr, symbol, not, comp}
use lightbuild.Kconfig.Expr.Value.{expr_calc_value, symbol_order, holds}
use lightbuild.Kconfig.Expr.Value.Constants.{symbol_order-constant}
use lightbuild.Kconfig.Expr.Dups.{or_rule, and_rule}

-- Operands whose subject is the symbol `a`.
pub data About (a : Sym) : Expr → Type 0 where
  plain : About a (symbol a)
  equals : (b : Sym) → About a (comp equal a b)
  differs : (b : Sym) → About a (comp unequal a b)
  negated : About a (not (symbol a))
  negated_equals : (b : Sym) → About a (not (comp equal a b))
  negated_differs : (b : Sym) → About a (not (comp unequal a b))

-- No symbol compares equal to two distinct constant symbols.
abbrev pub ConstantsDiffer : Table → Type 0
ConstantsDiffer t =
    (a b c : Sym)
    → (t.get b).is_const ≡ true
    → (t.get c).is_const ≡ true
    → b ≢ c
    → holds equal (symbol_order t a b) ≡ true
    → holds equal (symbol_order t a c) ≡ false

module _ (t : Table) (c : IsCalculated t) (a : Sym) (like : IsTristateLike (t.get a).type) where
  -- All that the rules need to know of the symbol.
  facts :
      ((t.get a).type ≡ boolean → (t.get a).tri ≢ tri_mod)
      × (holds equal (symbol_order t a symbol_no) ≡ tri_eq (t.get a).tri tri_no)
      × (holds equal (symbol_order t a symbol_mod) ≡ tri_eq (t.get a).tri tri_mod)
      × (holds equal (symbol_order t a symbol_yes) ≡ tri_eq (t.get a).tri tri_yes)
      × ((t.get symbol_yes).tri ≡ tri_yes)
      × ((t.get symbol_no).tri ≡ tri_no)
  facts = (
    c.boolean_mod a,
    symbol_order-constant t a tri_no c like,
    symbol_order-constant t a tri_mod c like,
    symbol_order-constant t a tri_yes c like,
    ap (λ s. s.tri) (c.constants tri_yes),
    ap (λ s. s.tri) (c.constants tri_no),
  )

  pub or_rule_sound :
      {e1 e2 r : Expr}
      → About a e1
      → About a e2
      → or_rule t a e1 e2 ≡ some r
      → expr_calc_value t r ≡ expr_or (expr_calc_value t e1) (expr_calc_value t e2)
  unfolding or_rule expr_calc_value expr_or expr_not
  or_rule_sound plain plain h = ground arith
  or_rule_sound (equals b) plain h = ground (arith, facts)
  or_rule_sound (differs b) plain h = ground (arith, facts)
  or_rule_sound negated plain h = ground (arith, facts)
  or_rule_sound (negated_equals b) plain h = ground (arith, facts)
  or_rule_sound (negated_differs b) plain h = ground (arith, facts)
  or_rule_sound _ _ h = ground (arith, facts)

  pub and_rule_sound :
      {e1 e2 r : Expr}
      → ConstantsDiffer t
      → About a e1
      → About a e2
      → and_rule t a e1 e2 ≡ some r
      → expr_calc_value t r ≡ expr_and (expr_calc_value t e1) (expr_calc_value t e2)
  unfolding and_rule expr_calc_value expr_and expr_not
  and_rule_sound d plain plain h = ground arith
  and_rule_sound d (equals b) plain h = ground (arith, facts)
  and_rule_sound d (differs b) plain h = ground (arith, facts)
  and_rule_sound d negated plain h = ground (arith, facts)
  and_rule_sound d (negated_equals b) plain h = ground (arith, facts)
  and_rule_sound d (negated_differs b) plain h = ground (arith, facts)
  and_rule_sound d (equals b) (differs b') h = ground (arith, facts, d a b b')
  and_rule_sound d (differs b) (equals b') h = ground (arith, facts, d a b' b)
  and_rule_sound d _ _ h = ground (arith, facts)
