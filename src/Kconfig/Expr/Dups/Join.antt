-- ===== src/Kconfig/Expr/Dups/Join.antt =====
-- expr_join_or and expr_join_and return, and what they return has the value of the two operands.
use lightbuild.Prelude.{
  ℕ, ◌+◌, ◌*◌, ◌≤◌, ◌≡◌, refl, sym, ap, ◌∙◌, subst, false, arith, Option, none, some, ◌>>=◌,
  Bool-cases, inl, inr,
}
use mathlib.Core.Option.{some_inj}
use lightbuild.Kconfig.Tristate.{Tristate, expr_and, expr_or}
use lightbuild.Kconfig.Tristate
use lightbuild.Kconfig.Symbol.{Sym, Table, IsCalculated, IsTristateLike}
use lightbuild.Kconfig.Expr.{equal, unequal, Expr, symbol, not, comp, size}
use lightbuild.Kconfig.Expr.Value.{expr_calc_value}
use lightbuild.Kconfig.Expr.Eq.{Level, level_and, level_or, eq_by, eliminate_level, is_node}
use lightbuild.Kconfig.Expr.Eq.Sound.{join, Comparison}
use lightbuild.Kconfig.Expr.Yn.Shape.{size-pos}
use lightbuild.Kconfig.Expr.Eq.Total.{eliminate_level-Elimination, eq_by-Comparison, need-of_node}
use lightbuild.Kconfig.Expr.Dups.{
  subject1, subject2, about_one, or_rule, and_rule, expr_join_or, expr_join_and, expr_join,
}
use lightbuild.Kconfig.Expr.Dups.Rules.{
  About, plain, equals, differs, negated, negated_equals, negated_differs, ConstantsDiffer,
  or_rule_sound, and_rule_sound,
}

subject1-About : (e : Expr) (a : Sym) → subject1 e ≡ some a → About a e
subject1-About (symbol b) a h = subst (λ x. About x (symbol b)) (some_inj.0 h) plain
subject1-About (comp equal b d) a h =
    subst (λ x. About x (comp equal b d)) (some_inj.0 h) (equals d)
subject1-About (comp unequal b d) a h =
    subst (λ x. About x (comp unequal b d)) (some_inj.0 h) (differs d)
subject1-About (not (symbol b)) a h = subst (λ x. About x (not (symbol b))) (some_inj.0 h) negated
subject1-About (not (comp equal b d)) a h =
    subst (λ x. About x (not (comp equal b d))) (some_inj.0 h) (negated_equals d)
subject1-About (not (comp unequal b d)) a h =
    subst (λ x. About x (not (comp unequal b d))) (some_inj.0 h) (negated_differs d)
subject1-About _ a h = absurd (cc)

subject2-About : (e : Expr) (a : Sym) → subject2 e ≡ some a → About a e
subject2-About (symbol b) a h = subst (λ x. About x (symbol b)) (some_inj.0 h) plain
subject2-About (comp equal b d) a h =
    subst (λ x. About x (comp equal b d)) (some_inj.0 h) (equals d)
subject2-About (comp unequal b d) a h =
    subst (λ x. About x (comp unequal b d)) (some_inj.0 h) (differs d)
subject2-About (not (symbol b)) a h = subst (λ x. About x (not (symbol b))) (some_inj.0 h) negated
subject2-About _ a h = absurd (cc)

-- `r` is a leaf with the value of `e1` and `e2` together, and no larger than the two.
pub record Joins (t : Table) (l : Level) (e1 e2 r : Expr) : Type 0 where
  pub same : expr_calc_value t r ≡ join l (expr_calc_value t e1) (expr_calc_value t e2)
  pub small : size r + 1 ≤ size e1 + size e2
  pub leaf : is_node l e1 ≡ false → is_node l r ≡ false

about_one_guard :
    (t : Table) (rule : Sym → Option Expr) (a b : Sym) {r : Expr}
    → about_one t rule (some a) (some b) ≡ some r
    → (a ≡ b) × IsTristateLike (t.get a).type × (rule a ≡ some r)
about_one_guard t rule a b h = ground arith

about_one-some :
    (t : Table) (rule : Sym → Option Expr) (o o' : Option Sym) {r : Expr}
    → about_one t rule o o' ≡ some r
    → (a : Sym) × (o ≡ some a) × (o' ≡ some a) × IsTristateLike (t.get a).type × (rule a ≡ some r)
about_one-some t rule (some a) (some b) h =
    let (same, like, eq) = about_one_guard t rule a b h in (a, refl, ap some (sym same), like, eq)
about_one-some t rule none o h = absurd (cc)
about_one-some t rule (some a) none h = absurd (cc)

or_rule_leaf :
    (t : Table) (a : Sym) (e1 e2 : Expr) {r : Expr}
    → or_rule t a e1 e2 ≡ some r
    → (size r ≡ 1) × (is_node level_or r ≡ false)
unfolding or_rule size
or_rule_leaf t a e1 e2 h = ground arith

and_rule_leaf :
    (t : Table) (a : Sym) (e1 e2 : Expr) {r : Expr}
    → and_rule t a e1 e2 ≡ some r
    → (size r ≡ 1) × (is_node level_and r ≡ false)
unfolding and_rule size
and_rule_leaf t a e1 e2 h = ground arith

abbrev pub Joining : Table → Level → Expr → Expr → Option (Option Expr) → Type 0
Joining t l e1 e2 j =
    (o : Option Expr) × (j ≡ some o) × ((r : Expr) → o ≡ some r → Joins t l e1 e2 r)

module _ (t : Table) (c : IsCalculated t) (d : ConstantsDiffer t) where
  compared :
      (f : ℕ) (e1 e2 : Expr)
      → 2 * (size e1 + size e2) ≤ f
      → Comparison t e1 e2 (eq_by (eliminate_level f) e1 e2)
  compared f e1 e2 fits =
      eq_by-Comparison t c (eliminate_level f) (size e1 + size e2)
        (λ l x y n small.
          eliminate_level-Elimination t c f l x y (omega (arith, need-of_node l x y n)))
        e1 e2 (omega arith)

  Joins-copy :
      (l : Level) (e1 e2 : Expr) → expr_calc_value t e1 ≡ expr_calc_value t e2 → Joins t l e1 e2 e1
  unfolding join
  Joins-copy l e1 e2 same = record {
    same = sym (ap (join l (expr_calc_value t e1)) (sym same) ∙ join_self l _);
    small = omega (arith, size-pos e2);
    leaf = λ n. n;
  }
    where
      join_self : (l : Level) (a : Tristate) → join l a a ≡ a
      join_self level_and = Tristate.and_self
      join_self level_or = Tristate.or_self

  or_Joins :
      (e1 e2 r : Expr)
      → about_one t (λ a. or_rule t a e1 e2) (subject1 e1) (subject2 e2) ≡ some r
      → Joins t level_or e1 e2 r
  unfolding join
  or_Joins e1 e2 r h =
      let (a, s1, s2, like, eq) =
        about_one-some t (λ a. or_rule t a e1 e2) (subject1 e1) (subject2 e2) h in
      let leaf = or_rule_leaf t a e1 e2 eq in
      record {
        same = or_rule_sound t c a like (subject1-About e1 a s1) (subject2-About e2 a s2) eq;
        small = omega (arith, leaf.0, size-pos e1, size-pos e2);
        leaf = λ n. leaf.1;
      }

  and_Joins :
      (e1 e2 r : Expr)
      → about_one t (λ a. and_rule t a e1 e2) (subject1 e1) (subject2 e2) ≡ some r
      → Joins t level_and e1 e2 r
  unfolding join
  and_Joins e1 e2 r h =
      let (a, s1, s2, like, eq) =
        about_one-some t (λ a. and_rule t a e1 e2) (subject1 e1) (subject2 e2) h in
      let leaf = and_rule_leaf t a e1 e2 eq in
      record {
        same = and_rule_sound t c a like d (subject1-About e1 a s1) (subject2-About e2 a s2) eq;
        small = omega (arith, leaf.0, size-pos e1, size-pos e2);
        leaf = λ n. leaf.1;
      }

  -- Over calculated symbols, and where no symbol compares equal to two distinct constant symbols (as a symbol
  -- with the value 1 does to "1" and "0x1"): with fuel for the two sizes expr_join_or and
  -- expr_join_and return, and where they return an expression, its value is that of the two
  -- operands joined by || or &&.
  pub expr_join_sound :
      (l : Level) (f : ℕ) (e1 e2 : Expr)
      → 2 * (size e1 + size e2) ≤ f
      → Joining t l e1 e2 (expr_join l t f e1 e2)
  unfolding expr_join_or expr_join_and
  expr_join_sound level_or f e1 e2 fits =
      let (b, eq, same) = compared f e1 e2 fits in
      elim (Bool-cases b) [
        | inl yes' ↦ (
          some e1,
          rw (eq, ◌>>=◌) (rw yes' refl),
          λ r h.
              subst (Joins t level_or e1 e2) (some_inj.0 h) (Joins-copy level_or e1 e2 (same yes')),
        )
        | inr no' ↦ (_, rw (eq, ◌>>=◌) (rw no' refl), or_Joins e1 e2)
      ]
  expr_join_sound level_and f e1 e2 fits =
      let (b, eq, same) = compared f e1 e2 fits in
      elim (Bool-cases b) [
        | inl yes' ↦ (
          some e1,
          rw (eq, ◌>>=◌) (rw yes' refl),
          λ r h.
              subst (Joins t level_and e1 e2) (some_inj.0 h)
                (Joins-copy level_and e1 e2 (same yes')),
        )
        | inr no' ↦ (_, rw (eq, ◌>>=◌) (rw no' refl), and_Joins e1 e2)
      ]
