-- ===== src/Kconfig/Expr/Dups.antt =====
-- expr_join_or, expr_join_and, expr_eliminate_dups1 and expr_eliminate_dups of
-- scripts/kconfig/expr.c.
pub mod Rules
pub mod Join
pub mod Region
pub mod Leaves
pub mod Walk
pub mod Total
use lightbuild.Prelude.{
  ℕ, zero, suc, Bool, true, false, ◌&&◌, ◌||◌, Option, none, some, ◌==◌, if◌then◌else◌, ◌>>=◌, ◌+◌,
  ◌*◌, ◌++◌, List, [], ◌∷◌,
}
use lightbuild.Kconfig.Symbol.{
  SymbolType, boolean, tristate, Sym, Table, type_eq, symbol_no, symbol_mod, symbol_yes,
}
use lightbuild.Kconfig.Expr.{
  Relation, equal, unequal, lth, leq, gth, geq, Expr, symbol, not, and, or, comp, list_end, list,
  range, size,
}
use lightbuild.Kconfig.Expr.Eq.{
  Level, level_and, level_or, level_of, neutral, both_level, relation_eq, eq_by, eliminate_level,
  is_node,
}
use lightbuild.Kconfig.Expr.Yn.{expr_eliminate_yn}

-- `sym1`, where the tests on the type of `e1` let the function go on.
abbrev pub subject1 : Expr → Option Sym
subject1 (symbol a) = some a
subject1 (comp equal a b) = some a
subject1 (comp unequal a b) = some a
subject1 (not (symbol a)) = some a
subject1 (not (comp equal a b)) = some a
subject1 (not (comp unequal a b)) = some a
subject1 _ = none

-- `sym2`, likewise.
abbrev pub subject2 : Expr → Option Sym
subject2 (symbol a) = some a
subject2 (comp equal a b) = some a
subject2 (comp unequal a b) = some a
subject2 (not (symbol a)) = some a
subject2 _ = none

-- `e->type == r && e->right.sym == s`.
abbrev pub compares : Relation → Sym → Expr → Bool
compares r s (comp r' a b) = relation_eq r r' && b == s
compares r s _ = false

-- Both operands compare by `r`, with these two constants in either order.
abbrev pub compare_pair : Relation → Sym → Sym → Expr → Expr → Bool
compare_pair r s s' e1 e2 =
    (compares r s e1 && compares r s' e2) || (compares r s' e1 && compares r s e2)

abbrev pub is_any_symbol : Expr → Bool
is_any_symbol (symbol a) = true
is_any_symbol _ = false

abbrev pub is_not_symbol : Expr → Bool
is_not_symbol (not (symbol a)) = true
is_not_symbol _ = false

-- A plain symbol beside a comparison with the constant, in either order.
abbrev pub symbol_beside : Relation → Sym → Expr → Expr → Bool
symbol_beside r s e1 e2 =
    (is_any_symbol e1 && compares r s e2) || (is_any_symbol e2 && compares r s e1)

-- The rules of expr_join_or for two operands about the symbol `a`.
unfoldable pub or_rule : Table → Sym → Expr → Expr → Option Expr
or_rule t a e1 e2 =
    let three = type_eq (t.get a).type tristate in
    if three && compare_pair equal symbol_yes symbol_mod e1 e2
    then some (comp unequal a symbol_no)
    else if three && compare_pair equal symbol_yes symbol_no e1 e2
    then some (comp unequal a symbol_mod)
    else if three && compare_pair equal symbol_mod symbol_no e1 e2
    then some (comp unequal a symbol_yes)
    else if type_eq (t.get a).type boolean
        && ((is_not_symbol e1 && is_any_symbol e2) || (is_not_symbol e2 && is_any_symbol e1))
    then some (symbol symbol_yes)
    else none

-- (a='b') && (a!='c'), where both are constant symbols.
abbrev pub const_rule : Table → Sym → Expr → Expr → Option Expr
const_rule t a (comp equal _ b) (comp unequal _ c) =
    if (t.get c).is_const && (t.get b).is_const
    then some (if b == c then symbol symbol_no else comp equal a b)
    else none
const_rule t a (comp unequal _ c) (comp equal _ b) =
    if (t.get c).is_const && (t.get b).is_const
    then some (if b == c then symbol symbol_no else comp equal a b)
    else none
const_rule t a _ _ = none

-- The rules on two inequalities of a TRISTATE symbol; all that follows them returns NULL.
abbrev pub unequal_rule : Sym → Expr → Expr → Option Expr
unequal_rule a e1 e2 =
    if compare_pair unequal symbol_yes symbol_no e1 e2
    then some (comp equal a symbol_mod)
    else if compare_pair unequal symbol_yes symbol_mod e1 e2
    then some (comp equal a symbol_no)
    else if compare_pair unequal symbol_mod symbol_no e1 e2
    then some (comp equal a symbol_yes)
    else none

abbrev pub or_else : Option Expr → Option Expr → Option Expr
or_else (some e) o = some e
or_else none o = o

unfoldable pub and_rule : Table → Sym → Expr → Expr → Option Expr
and_rule t a e1 e2 =
    if symbol_beside equal symbol_yes e1 e2
    then some (comp equal a symbol_yes)
    else if symbol_beside unequal symbol_no e1 e2
    then some (symbol a)
    else if symbol_beside unequal symbol_mod e1 e2
    then some (comp equal a symbol_yes)
    else if type_eq (t.get a).type tristate
    then or_else (const_rule t a e1 e2) (unequal_rule a e1 e2)
    else none

-- The tests before the rules: one BOOLEAN or TRISTATE symbol is the subject of both operands.
abbrev pub about_one : Table → (Sym → Option Expr) → Option Sym → Option Sym → Option Expr
about_one t rule (some a) (some b) =
    if a == b && (type_eq (t.get a).type boolean || type_eq (t.get a).type tristate)
    then rule a
    else none
about_one t rule _ _ = none

-- The outer `none` means that expr_eq ran out of fuel, the inner one is NULL.
unfoldable pub expr_join_or : Table → ℕ → Expr → Expr → Option (Option Expr)
expr_join_or t f e1 e2 = do
  same ← eq_by (eliminate_level f) e1 e2
  some (if same then some e1 else about_one t (λ a. or_rule t a e1 e2) (subject1 e1) (subject2 e2))

unfoldable pub expr_join_and : Table → ℕ → Expr → Expr → Option (Option Expr)
expr_join_and t f e1 e2 = do
  same ← eq_by (eliminate_level f) e1 e2
  some (if same then some e1 else about_one t (λ a. and_rule t a e1 e2) (subject1 e1) (subject2 e2))

-- A place in a tree: the way down to it. Two pointers into a tree are equal as places are.
pub data Side : Type 0 where
  left right : Side

abbrev pub Place : Type 0
Place = List Side

abbrev pub same_place : Place → Place → Bool
same_place [] [] = true
same_place (left ∷ p) (left ∷ q) = same_place p q
same_place (right ∷ p) (right ∷ q) = same_place p q
same_place _ _ = false

-- `*ep`, for a place in `e`.
unfoldable pub get : Expr → Place → Expr
get e [] = e
get (and a b) (left ∷ p) = get a p
get (and a b) (right ∷ p) = get b p
get (or a b) (left ∷ p) = get a p
get (or a b) (right ∷ p) = get b p
get e (s ∷ p) = e

-- `*ep = x`.
unfoldable pub put : Expr → Place → Expr → Expr
put e [] x = x
put (and a b) (left ∷ p) x = and (put a p x) b
put (and a b) (right ∷ p) x = and a (put b p x)
put (or a b) (left ∷ p) x = or (put a p x) b
put (or a b) (right ∷ p) x = or a (put b p x)
put e (s ∷ p) x = e

abbrev pub expr_join : Level → Table → ℕ → Expr → Expr → Option (Option Expr)
expr_join level_or = expr_join_or
expr_join level_and = expr_join_and

-- The operands at `p` and `q` once they are compared: a neutral constant and what they join to.
abbrev pub joined : Level → Expr → Place → Place → ℕ → Option Expr → Expr × ℕ
joined l e p q n none = (e, n)
joined l e p q n (some r) = (put (put e p (symbol (neutral l))) q r, n + 1)

abbrev pub Walk : Type 0
Walk = Level → Place → Place → Expr → Option (Expr × ℕ)

-- Duplicates within the leaf at `p`, where it is a node of the other level.
abbrev pub within_leaf : Walk → Expr → Place → Option Level → Option (Expr × ℕ)
within_leaf go e p none = some (e, 0)
within_leaf go e p (some l) = do (x, n) ← go l [] [] (get e p); some (put e p x, n)

-- Two leaves at different places.
abbrev pub compare_leaves : Table → Walk → Walk
compare_leaves t go l p q e = do
  (d, n) ← within_leaf go e p (level_of (get e p))
  r ← expr_join l t (2 * (size (get d p) + size (get d q))) (get d p) (get d q)
  some (joined l d p q n r)

unfoldable pub dups_leaves : Table → Walk → Walk
dups_leaves t go l p q e = if same_place p q then some (e, 0) else compare_leaves t go l p q e

-- Two calls, one behind the other.
abbrev pub in_turn : Walk → Level → Place → Place → Place → Place → Expr → Option (Expr × ℕ)
in_turn go l p q p' q' e = do (d, n) ← go l p q e; (c, m) ← go l p' q' d; some (c, n + m)

-- expr_eliminate_dups1 on the places `p` and `q` of one tree, for it is only called on two places
-- of one tree. The number is what it adds to `trans_count`.
unfoldable pub eliminate_dups1 : Table → ℕ → Walk
eliminate_dups1 t zero l p q e = none
eliminate_dups1 t (suc f) l p q e =
    let first_pointer = in_turn (eliminate_dups1 t f) l (p ++ left ∷ []) q (p ++ right ∷ []) q e in
    let second_pointer = in_turn (eliminate_dups1 t f) l p (q ++ left ∷ []) p (q ++ right ∷ []) e in
    let leaves = dups_leaves t (eliminate_dups1 t f) l p q e in
    if is_node l (get e p)
    then first_pointer
    else if is_node l (get e q)
    then second_pointer
    else leaves

-- One round of the loop of expr_eliminate_dups.
abbrev pub dups_pass : Table → ℕ → Expr → Option Level → Option (Expr × ℕ)
dups_pass t f e none = some (e, 0)
dups_pass t f e (some l) = eliminate_dups1 t f l [] [] e

-- The loop, on `rounds`; each round has the fuel `f`.
unfoldable pub expr_eliminate_dups : Table → ℕ → ℕ → Expr → Option Expr
expr_eliminate_dups t f zero e = none
expr_eliminate_dups t f (suc rounds) e = do
  (d, n) ← dups_pass t f e (level_of e)
  (let again = expr_eliminate_dups t f rounds (expr_eliminate_yn d) in
      if n == 0 then some d else again)
