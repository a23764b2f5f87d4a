-- ===== src/Kconfig/Expr/Dups/Leaves.antt =====
-- Writing one leaf of a level: what it does to the value, to the other leaves and to the nodes.
use lightbuild.Prelude.{◌≡◌, ◌≢◌, refl, sym, ap, ◌∙◌, false, arith, [], ◌∷◌}
use lightbuild.Kconfig.Tristate.{Tristate, expr_and, expr_or}
use lightbuild.Kconfig.Symbol.{Table, IsCalculated}
use lightbuild.Kconfig.Expr.{Expr, symbol, and, or}
use lightbuild.Kconfig.Expr.Value.{expr_calc_value}
use lightbuild.Kconfig.Expr.Yn.Laws.{value_no, value_yes}
use lightbuild.Kconfig.Expr.Eq.{Level, level_and, level_or, neutral, is_node}
use lightbuild.Kconfig.Expr.Eq.Sound.{join, join_assoc, join_comm, join-unit, unit}
use lightbuild.Kconfig.Expr.Dups.{left, right, Place, get, put, same_place}
use lightbuild.Kconfig.Expr.Dups.Region.{InLevel, Disjoint, nodes}

pub value-neutral :
    (t : Table) (l : Level) → IsCalculated t → expr_calc_value t (symbol (neutral l)) ≡ unit l
value-neutral t level_and c = value_yes t c
value-neutral t level_or c = value_no t c

-- (x ∘ m) ∘ b and b ∘ (x ∘ m), with `x` brought to the front.
join_front_left : (l : Level) (x m b : Tristate) → join l (join l x m) b ≡ join l x (join l m b)
join_front_left l x m b = join_assoc l x m b

join_front_right : (l : Level) (x m b : Tristate) → join l b (join l x m) ≡ join l x (join l b m)
join_front_right l x m b =
    sym (join_assoc l b x m) ∙ ap (λ y. join l y m) (join_comm l b x) ∙ join_assoc l x b m

module _ (t : Table) (c : IsCalculated t) where
  pub value-put :
      (l : Level) (e : Expr) (p : Place) (x : Expr)
      → InLevel l e p
      → expr_calc_value t (put e p x)
        ≡ join l (expr_calc_value t x) (expr_calc_value t (put e p (symbol (neutral l))))
  unfolding put expr_calc_value join
  value-put l e [] x h =
      sym (ap (join l (expr_calc_value t x)) (value-neutral t l c) ∙ join-unit l _)
  value-put level_and (and a b) (left ∷ p) x h =
      ap (λ y. expr_and y (expr_calc_value t b)) (value-put level_and a p x h)
      ∙ join_front_left level_and _ _ _
  value-put level_and (and a b) (right ∷ p) x h =
      ap (expr_and (expr_calc_value t a)) (value-put level_and b p x h)
      ∙ join_front_right level_and _ _ _
  value-put level_or (or a b) (left ∷ p) x h =
      ap (λ y. expr_or y (expr_calc_value t b)) (value-put level_or a p x h)
      ∙ join_front_left level_or _ _ _
  value-put level_or (or a b) (right ∷ p) x h =
      ap (expr_or (expr_calc_value t a)) (value-put level_or b p x h)
      ∙ join_front_right level_or _ _ _
  value-put l e (s ∷ p) x h = absurd h

pub get-put_ne :
    (l : Level) (e : Expr) (p q : Place) (x : Expr)
    → InLevel l e p
    → InLevel l e q
    → Disjoint p q
    → get (put e p x) q ≡ get e q
unfolding get put
get-put_ne level_and (and a b) (left ∷ p) (left ∷ q) x hp hq d =
    get-put_ne level_and a p q x hp hq d
get-put_ne level_and (and a b) (left ∷ p) (right ∷ q) x hp hq d = refl
get-put_ne level_and (and a b) (right ∷ p) (left ∷ q) x hp hq d = refl
get-put_ne level_and (and a b) (right ∷ p) (right ∷ q) x hp hq d =
    get-put_ne level_and b p q x hp hq d
get-put_ne level_or (or a b) (left ∷ p) (left ∷ q) x hp hq d = get-put_ne level_or a p q x hp hq d
get-put_ne level_or (or a b) (left ∷ p) (right ∷ q) x hp hq d = refl
get-put_ne level_or (or a b) (right ∷ p) (left ∷ q) x hp hq d = refl
get-put_ne level_or (or a b) (right ∷ p) (right ∷ q) x hp hq d = get-put_ne level_or b p q x hp hq d
get-put_ne l e (s ∷ p) (s' ∷ q) x hp hq d = absurd hp
get-put_ne l e [] q x hp hq d = absurd d
get-put_ne l e (left ∷ p) [] x hp hq d = absurd d
get-put_ne l e (right ∷ p) [] x hp hq d = absurd d

-- Below a leaf of the level there is no place of the level.
leaf-nil : (l : Level) (e : Expr) (q : Place) → is_node l e ≡ false → InLevel l e q → q ≡ []
leaf-nil l e [] n h = refl
leaf-nil level_and (and a b) (s ∷ q) n h = cc
leaf-nil level_or (or a b) (s ∷ q) n h = cc
leaf-nil l e (s ∷ q) n h = absurd h

pub InLevel-put :
    (l : Level) (e : Expr) (p q : Place) (x : Expr)
    → is_node l (get e p) ≡ false
    → InLevel l e p
    → InLevel l e q
    → InLevel l (put e p x) q
unfolding get put
InLevel-put l e p [] x n hp hq = tt
InLevel-put l e [] (s ∷ q) x n hp hq = cc (leaf-nil l e (s ∷ q) n hq)
InLevel-put level_and (and a b) (left ∷ p) (left ∷ q) x n hp hq =
    InLevel-put level_and a p q x n hp hq
InLevel-put level_and (and a b) (left ∷ p) (right ∷ q) x n hp hq = hq
InLevel-put level_and (and a b) (right ∷ p) (left ∷ q) x n hp hq = hq
InLevel-put level_and (and a b) (right ∷ p) (right ∷ q) x n hp hq =
    InLevel-put level_and b p q x n hp hq
InLevel-put level_or (or a b) (left ∷ p) (left ∷ q) x n hp hq = InLevel-put level_or a p q x n hp hq
InLevel-put level_or (or a b) (left ∷ p) (right ∷ q) x n hp hq = hq
InLevel-put level_or (or a b) (right ∷ p) (left ∷ q) x n hp hq = hq
InLevel-put level_or (or a b) (right ∷ p) (right ∷ q) x n hp hq =
    InLevel-put level_or b p q x n hp hq
InLevel-put l e (s' ∷ p) (s ∷ q) x n hp hq = absurd hp

pub leaf-nodes : (l : Level) (e : Expr) → is_node l e ≡ false → nodes l e ≡ 0
unfolding nodes
leaf-nodes l e n = ground arith

nodes-put_root :
    (l : Level) (e : Expr) (p : Place) (x : Expr)
    → is_node l (get e p) ≡ false
    → is_node l x ≡ false
    → InLevel l e p
    → nodes l (put e p x) ≡ nodes l e
unfolding get put nodes
nodes-put_root l e [] x n m h = leaf-nodes l x m ∙ sym (leaf-nodes l e n)
nodes-put_root level_and (and a b) (left ∷ p) x n m h =
    omega (arith, nodes-put_root level_and a p x n m h)
nodes-put_root level_and (and a b) (right ∷ p) x n m h =
    omega (arith, nodes-put_root level_and b p x n m h)
nodes-put_root level_or (or a b) (left ∷ p) x n m h =
    omega (arith, nodes-put_root level_or a p x n m h)
nodes-put_root level_or (or a b) (right ∷ p) x n m h =
    omega (arith, nodes-put_root level_or b p x n m h)
nodes-put_root l e (s ∷ p) x n m h = absurd h

pub nodes-put :
    (l : Level) (e : Expr) (p q : Place) (x : Expr)
    → is_node l (get e p) ≡ false
    → is_node l x ≡ false
    → InLevel l e p
    → InLevel l e q
    → nodes l (get (put e p x) q) ≡ nodes l (get e q)
unfolding get put
nodes-put l e p [] x n m hp hq = nodes-put_root l e p x n m hp
nodes-put l e [] (s ∷ q) x n m hp hq = cc (leaf-nil l e (s ∷ q) n hq)
nodes-put level_and (and a b) (left ∷ p) (left ∷ q) x n m hp hq =
    nodes-put level_and a p q x n m hp hq
nodes-put level_and (and a b) (left ∷ p) (right ∷ q) x n m hp hq = refl
nodes-put level_and (and a b) (right ∷ p) (left ∷ q) x n m hp hq = refl
nodes-put level_and (and a b) (right ∷ p) (right ∷ q) x n m hp hq =
    nodes-put level_and b p q x n m hp hq
nodes-put level_or (or a b) (left ∷ p) (left ∷ q) x n m hp hq = nodes-put level_or a p q x n m hp hq
nodes-put level_or (or a b) (left ∷ p) (right ∷ q) x n m hp hq = refl
nodes-put level_or (or a b) (right ∷ p) (left ∷ q) x n m hp hq = refl
nodes-put level_or (or a b) (right ∷ p) (right ∷ q) x n m hp hq =
    nodes-put level_or b p q x n m hp hq
nodes-put l e (s' ∷ p) (s ∷ q) x n m hp hq = absurd hp

-- Two leaves at different places are disjoint.
pub leaves-Disjoint :
    (l : Level) (e : Expr) (p q : Place)
    → is_node l (get e p) ≡ false
    → is_node l (get e q) ≡ false
    → InLevel l e p
    → InLevel l e q
    → same_place p q ≡ false
    → Disjoint p q
unfolding get
leaves-Disjoint l e [] [] n m hp hq ne = cc
leaves-Disjoint l e [] (s ∷ q) n m hp hq ne = cc (leaf-nil l e (s ∷ q) n hq)
leaves-Disjoint l e (s ∷ p) [] n m hp hq ne = cc (leaf-nil l e (s ∷ p) m hp)
leaves-Disjoint level_and (and a b) (left ∷ p) (left ∷ q) n m hp hq ne =
    leaves-Disjoint level_and a p q n m hp hq ne
leaves-Disjoint level_and (and a b) (left ∷ p) (right ∷ q) n m hp hq ne = tt
leaves-Disjoint level_and (and a b) (right ∷ p) (left ∷ q) n m hp hq ne = tt
leaves-Disjoint level_and (and a b) (right ∷ p) (right ∷ q) n m hp hq ne =
    leaves-Disjoint level_and b p q n m hp hq ne
leaves-Disjoint level_or (or a b) (left ∷ p) (left ∷ q) n m hp hq ne =
    leaves-Disjoint level_or a p q n m hp hq ne
leaves-Disjoint level_or (or a b) (left ∷ p) (right ∷ q) n m hp hq ne = tt
leaves-Disjoint level_or (or a b) (right ∷ p) (left ∷ q) n m hp hq ne = tt
leaves-Disjoint level_or (or a b) (right ∷ p) (right ∷ q) n m hp hq ne =
    leaves-Disjoint level_or b p q n m hp hq ne
leaves-Disjoint l e (s' ∷ p) (s ∷ q) n m hp hq ne = absurd hp

pub Disjoint-ne_nil : (p q : Place) → Disjoint p q → (p ≢ []) × (q ≢ [])
Disjoint-ne_nil (left ∷ p) (left ∷ q) d = (λ e. cc, λ e. cc)
Disjoint-ne_nil (left ∷ p) (right ∷ q) d = (λ e. cc, λ e. cc)
Disjoint-ne_nil (right ∷ p) (left ∷ q) d = (λ e. cc, λ e. cc)
Disjoint-ne_nil (right ∷ p) (right ∷ q) d = (λ e. cc, λ e. cc)
Disjoint-ne_nil (left ∷ p) [] d = absurd d
Disjoint-ne_nil (right ∷ p) [] d = absurd d
Disjoint-ne_nil [] q d = absurd d
