-- ===== src/Kconfig/Expr/Eq/Sound.antt =====
-- With enough fuel the elimination of equal operands returns. What it removes from the two sides
-- has one value, and expressions that expr_eq calls equal have the same value.
use lightbuild.Prelude.{
  ℕ, suc, ◌+◌, ◌*◌, ◌≤◌, ◌≡◌, refl, sym, ap, ap₂, ◌∙◌, Bool, true, false, arith, Option, none, some,
  if◌then◌else◌,
}
use lightbuild.Kconfig.Tristate.{Tristate, tri_no, tri_mod, tri_yes, expr_and, expr_or, expr_not}
use lightbuild.Kconfig.Tristate
use lightbuild.Kconfig.Symbol.{Table}
use lightbuild.Kconfig.Expr.{Relation, Expr, symbol, and, or, size}
use lightbuild.Kconfig.Expr.Value.{expr_calc_value}
use lightbuild.Kconfig.Expr.Eq.{
  Level, level_and, level_or, operands, node, relation_eq, same_symbol, is_node,
}

-- The value of a node from its operands'.
unfoldable pub join : Level → Tristate → Tristate → Tristate
join level_and = expr_and
join level_or = expr_or

abbrev pub unit : Level → Tristate
unit level_and = tri_yes
unit level_or = tri_no

pub join_assoc : (l : Level) (a b c : Tristate) → join l (join l a b) c ≡ join l a (join l b c)
unfolding join
join_assoc level_and = Tristate.and_assoc
join_assoc level_or = Tristate.or_assoc

pub join_comm : (l : Level) (a b : Tristate) → join l a b ≡ join l b a
unfolding join
join_comm level_and = Tristate.and_comm
join_comm level_or = Tristate.or_comm

pub join-unit : (l : Level) (a : Tristate) → join l a (unit l) ≡ a
unfolding join
join-unit level_and = Tristate.and_yes
join-unit level_or = Tristate.or_no

pub join-unit_left : (l : Level) (a : Tristate) → join l (unit l) a ≡ a
join-unit_left l a = join_comm l (unit l) a ∙ join-unit l a

pub join_middle :
    (l : Level) (a b c d : Tristate)
    → join l (join l a b) (join l c d) ≡ join l (join l a c) (join l b d)
unfolding join
join_middle level_and a b c d = unfold expr_and in ground arith
join_middle level_or a b c d = unfold expr_or in ground arith

pub operands-node : (l : Level) (e a b : Expr) → operands l e ≡ some (a, b) → e ≡ node l a b
operands-node level_and (and x y) a b h = ground arith
operands-node level_or (or x y) a b h = ground arith
operands-node _ _ a b h = ground arith

pub is_node-of-operands : (l : Level) (e : Expr) → operands l e ≡ none → is_node l e ≡ false
is_node-of-operands l e h = ground arith

pub size-node : (l : Level) (a b : Expr) → size (node l a b) ≡ suc (size a + size b)
unfolding size
size-node level_and a b = refl
size-node level_or a b = refl

pub is_node-node : (l : Level) (a b : Expr) → is_node l (node l a b) ≡ true
is_node-node level_and a b = refl
is_node-node level_or a b = refl

pub value-node :
    (t : Table) (l : Level) (a b : Expr)
    → expr_calc_value t (node l a b) ≡ join l (expr_calc_value t a) (expr_calc_value t b)
unfolding expr_calc_value join
value-node t level_and a b = refl
value-node t level_or a b = refl

-- `d1` and `d2` are `e1` and `e2` without operands whose joint value is `common`.
pub record Eliminated (t : Table) (l : Level) (e1 e2 d1 d2 : Expr) : Type 0 where
  pub common : Tristate
  pub left : join l common (expr_calc_value t d1) ≡ expr_calc_value t e1
  pub right : join l common (expr_calc_value t d2) ≡ expr_calc_value t e2
  pub size_left : size d1 ≤ size e1
  pub size_right : size d2 ≤ size e2
  pub node_left : is_node l d1 ≡ is_node l e1
  pub node_right : is_node l d2 ≡ is_node l e2

module _ {t : Table} {l : Level} where
  pub Eliminated-flip :
      {e1 e2 d1 d2 : Expr} → Eliminated t l e1 e2 d1 d2 → Eliminated t l e2 e1 d2 d1
  Eliminated-flip h = record {
    common = h.common;
    left = h.right;
    right = h.left;
    size_left = h.size_right;
    size_right = h.size_left;
    node_left = h.node_right;
    node_right = h.node_left;
  }

  pub Eliminated-refl : (e1 e2 : Expr) → Eliminated t l e1 e2 e1 e2
  Eliminated-refl e1 e2 = record {
    common = unit l;
    left = join-unit_left l _;
    right = join-unit_left l _;
    size_left = omega arith;
    size_right = omega arith;
    node_left = refl;
    node_right = refl;
  }

  pub Eliminated-node :
      {a b e a' e' b' e'' : Expr}
      → Eliminated t l a e a' e'
      → Eliminated t l b e' b' e''
      → Eliminated t l (node l a b) e (node l a' b') e''
  Eliminated-node {a} {b} {e} {a'} {e'} {b'} {e''} h k = record {
    common = join l h.common k.common;
    left =
        ap (join l (join l h.common k.common)) (value-node t l a' b')
        ∙ join_middle l h.common k.common _ _
        ∙ ap₂ (join l) h.left k.left
        ∙ sym (value-node t l a b);
    right = join_assoc l h.common k.common _ ∙ ap (join l h.common) k.right ∙ h.right;
    size_left = omega (arith, size-node l a b, size-node l a' b', h.size_left, k.size_left);
    size_right = omega (arith, h.size_right, k.size_right);
    node_left = is_node-node l a' b' ∙ sym (is_node-node l a b);
    node_right = k.node_right ∙ h.node_right;
  }

-- Fuel for a walk: a call on a node goes to its operands, one on two leaves compares them.
abbrev pub need : Level → Expr → Expr → ℕ
need l e1 e2 = 2 * (size e1 + size e2) + (if is_node l e1 then 0 else if is_node l e2 then 0 else 1)

abbrev pub Elimination : Table → Level → Expr → Expr → Option (Expr × Expr) → Type 0
Elimination t l e1 e2 r =
    (d1 : Expr) × (d2 : Expr) × (r ≡ some (d1, d2)) × Eliminated t l e1 e2 d1 d2

abbrev pub Comparison : Table → Expr → Expr → Option Bool → Type 0
Comparison t e1 e2 r =
    (b : Bool) × (r ≡ some b) × (b ≡ true → expr_calc_value t e1 ≡ expr_calc_value t e2)

pub relation_eq-eq : (r r' : Relation) → relation_eq r r' ≡ true → r ≡ r'
relation_eq-eq r r' h = ground arith

pub same_symbol-eq : (e1 e2 : Expr) → same_symbol e1 e2 ≡ true → e1 ≡ e2
same_symbol-eq (symbol a) (symbol b) h = ground arith
same_symbol-eq (symbol a) _ h = ground arith
same_symbol-eq _ e2 h = ground arith
