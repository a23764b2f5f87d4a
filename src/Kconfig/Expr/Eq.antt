-- ===== src/Kconfig/Expr/Eq.antt =====
-- __expr_eliminate_eq, expr_eliminate_eq and expr_eq of scripts/kconfig/expr.c. expr_eq works on
-- copies and puts `trans_count` back, so it is a function of the two expressions.
pub mod Sound
pub mod Total
pub mod Implies
use lightbuild.Prelude.{
  ℕ, zero, suc, Bool, true, false, ◌&&◌, ◌||◌, Option, none, some, ◌==◌, if◌then◌else◌, ◌>>=◌,
}
use lightbuild.Kconfig.Symbol.{Sym, symbol_no, symbol_yes}
use lightbuild.Kconfig.Expr.{
  Relation, equal, unequal, lth, leq, gth, geq, Expr, symbol, not, and, or, comp, list_end, list,
  range, expr_is_yes, is_symbol,
}
use lightbuild.Kconfig.Expr.Yn.{expr_eliminate_yn}

-- The `type` that a walk is about: E_AND or E_OR.
pub data Level : Type 0 where
  level_and level_or : Level

-- The operands of a node of the level.
abbrev pub operands : Level → Expr → Option (Expr × Expr)
operands level_and (and a b) = some (a, b)
operands level_or (or a b) = some (a, b)
operands _ _ = none

abbrev pub node : Level → Expr → Expr → Expr
node level_and = and
node level_or = or

-- The level of a node that has one.
abbrev pub level_of : Expr → Option Level
level_of (and a b) = some level_and
level_of (or a b) = some level_or
level_of _ = none

-- What an eliminated leaf is replaced by: `y` in E_AND, `n` in E_OR.
abbrev pub neutral : Level → Sym
neutral level_and = symbol_yes
neutral level_or = symbol_no

abbrev pub relation_eq : Relation → Relation → Bool
relation_eq equal equal = true
relation_eq unequal unequal = true
relation_eq lth lth = true
relation_eq leq leq = true
relation_eq gth gth = true
relation_eq geq geq = true
relation_eq _ _ = false

-- `e1->type == E_SYMBOL && e2->type == E_SYMBOL && e1->left.sym == e2->left.sym`.
abbrev pub same_symbol : Expr → Expr → Bool
same_symbol (symbol a) (symbol b) = a == b
same_symbol _ _ = false

abbrev pub both_level : Option Level → Option Level → Bool
both_level (some level_and) (some level_and) = true
both_level (some level_or) (some level_or) = true
both_level _ _ = false

-- A node of the level, as opposed to a leaf.
abbrev pub is_node : Level → Expr → Bool
is_node l e = both_level (some l) (level_of e)

abbrev pub Eliminate : Type 0
Eliminate = Level → Expr → Expr → Option (Expr × Expr)

abbrev pub at_level : Eliminate → Option Level → Expr → Expr → Option (Expr × Expr)
at_level go (some l) e1 e2 = go l e1 e2
at_level go none e1 e2 = some (e1, e2)

-- expr_eliminate_eq, over the walk: first at the level of `e1`, then, where the types differ, at
-- that of `e2`.
unfoldable pub eliminate_eq_by : Eliminate → Expr → Expr → Option (Expr × Expr)
eliminate_eq_by go e1 e2 = do
  (d1, d2) ← at_level go (level_of e1) e1 e2
  (c1, c2) ←
      if both_level (level_of d1) (level_of d2)
      then some (d1, d2)
      else at_level go (level_of d2) d1 d2
  some (expr_eliminate_yn c1, expr_eliminate_yn c2)

-- expr_eq, over the walk.
unfoldable pub eq_by : Eliminate → Expr → Expr → Option Bool
eq_by go (comp r a b) (comp r' c d) = some (relation_eq r r' && (a == c && b == d))
eq_by go (symbol a) (symbol b) = some (a == b)
eq_by go (not a) (not b) = eq_by go a b
eq_by go (and a b) (and c d) = do
  (d1, d2) ← eliminate_eq_by go (and a b) (and c d)
  some (same_symbol d1 d2)
eq_by go (or a b) (or c d) = do
  (d1, d2) ← eliminate_eq_by go (or a b) (or c d)
  some (same_symbol d1 d2)
eq_by go _ _ = some false

-- Two leaves: replaced where they are equal, but for the same constant.
abbrev pub eliminate_leaves : Eliminate → Level → Expr → Expr → Option (Expr × Expr)
eliminate_leaves go l e1 e2 =
    if same_symbol e1 e2 && (is_symbol e1 symbol_yes || is_symbol e1 symbol_no)
    then some (e1, e2)
    else (eq_by go e1 e2 >>= λ same.
        some (if same then (symbol (neutral l), symbol (neutral l)) else (e1, e2)))

-- __expr_eliminate_eq; `none` means that the fuel ran out.
unfoldable pub eliminate_level : ℕ → Level → Expr → Expr → Option (Expr × Expr)
eliminate_level zero l e1 e2 = none
eliminate_level (suc f) l e1 e2 = elim (operands l e1) [
  | some (a, b) ↦ do
    (a', e2') ← eliminate_level f l a e2
    (b', e2'') ← eliminate_level f l b e2'
    some (node l a' b', e2'')
  | none ↦ elim (operands l e2) [
    | some (a, b) ↦ do
      (e1', a') ← eliminate_level f l e1 a
      (e1'', b') ← eliminate_level f l e1' b
      some (e1'', node l a' b')
    | none ↦ eliminate_leaves (eliminate_level f) l e1 e2
  ]
]

unfoldable pub expr_eliminate_eq : ℕ → Expr → Expr → Option (Expr × Expr)
expr_eliminate_eq f = eliminate_eq_by (eliminate_level f)

-- Of pointers: NULL is taken to be yes.
unfoldable pub expr_eq : ℕ → Option Expr → Option Expr → Option Bool
expr_eq f (some e1) (some e2) = eq_by (eliminate_level f) e1 e2
expr_eq f e1 e2 = some (expr_is_yes e1 && expr_is_yes e2)
