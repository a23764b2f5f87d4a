-- ===== src/Kconfig/Expr/Dups/Region.antt =====
-- Places of one level of && or ||: reading, writing, and the value of the whole from its leaves.
use lightbuild.Prelude.{ℕ, suc, ◌+◌, ◌≤◌, ◌<◌, ◌≡◌, ◌≢◌, refl, ap, arith, [], ◌∷◌}
use lightbuild.Kconfig.Expr.{Expr, and, or, size}
use lightbuild.Kconfig.Expr.Yn.Shape.{IsReduced, NotYn}
use lightbuild.Kconfig.Expr.Eq.{Level, level_and, level_or}
use lightbuild.Kconfig.Expr.Yn.Shape.{size-pos}
use lightbuild.Kconfig.Expr.Dups.{left, right, Place, get, put}

-- Each node above the place is of the level.
abbrev pub InLevel : Level → Expr → Place → Type 0
InLevel l e [] = Unit
InLevel level_and (and a b) (left ∷ p) = InLevel level_and a p
InLevel level_and (and a b) (right ∷ p) = InLevel level_and b p
InLevel level_or (or a b) (left ∷ p) = InLevel level_or a p
InLevel level_or (or a b) (right ∷ p) = InLevel level_or b p
InLevel l e (s ∷ p) = ⊥

-- Neither place is above the other.
abbrev pub Disjoint : Place → Place → Type 0
Disjoint (left ∷ p) (left ∷ q) = Disjoint p q
Disjoint (right ∷ p) (right ∷ q) = Disjoint p q
Disjoint (left ∷ p) (right ∷ q) = Unit
Disjoint (right ∷ p) (left ∷ q) = Unit
Disjoint p q = ⊥

-- The nodes of the level, down to its leaves.
unfoldable pub nodes : Level → Expr → ℕ
nodes level_and (and a b) = suc (nodes level_and a + nodes level_and b)
nodes level_or (or a b) = suc (nodes level_or a + nodes level_or b)
nodes l e = 0

pub get-put : (l : Level) (e : Expr) (p : Place) (x : Expr) → InLevel l e p → get (put e p x) p ≡ x
unfolding get put
get-put l e [] x h = refl
get-put level_and (and a b) (left ∷ p) x h = get-put level_and a p x h
get-put level_and (and a b) (right ∷ p) x h = get-put level_and b p x h
get-put level_or (or a b) (left ∷ p) x h = get-put level_or a p x h
get-put level_or (or a b) (right ∷ p) x h = get-put level_or b p x h
get-put l e (s ∷ p) x h = absurd h

pub put-get : (l : Level) (e : Expr) (p : Place) → InLevel l e p → put e p (get e p) ≡ e
unfolding get put
put-get l e [] h = refl
put-get level_and (and a b) (left ∷ p) h = ap (λ y. and y b) (put-get level_and a p h)
put-get level_and (and a b) (right ∷ p) h = ap (and a) (put-get level_and b p h)
put-get level_or (or a b) (left ∷ p) h = ap (λ y. or y b) (put-get level_or a p h)
put-get level_or (or a b) (right ∷ p) h = ap (or a) (put-get level_or b p h)
put-get l e (s ∷ p) h = absurd h

pub size-put :
    (l : Level) (e : Expr) (p : Place) (x : Expr)
    → InLevel l e p
    → size (put e p x) + size (get e p) ≡ size e + size x
unfolding get put size
size-put l e [] x h = omega arith
size-put level_and (and a b) (left ∷ p) x h = omega (arith, size-put level_and a p x h)
size-put level_and (and a b) (right ∷ p) x h = omega (arith, size-put level_and b p x h)
size-put level_or (or a b) (left ∷ p) x h = omega (arith, size-put level_or a p x h)
size-put level_or (or a b) (right ∷ p) x h = omega (arith, size-put level_or b p x h)
size-put l e (s ∷ p) x h = absurd h

pub size-get-le : (l : Level) (e : Expr) (p : Place) → InLevel l e p → size (get e p) ≤ size e
unfolding get size
size-get-le l e [] h = omega arith
size-get-le level_and (and a b) (left ∷ p) h = omega (arith, size-get-le level_and a p h)
size-get-le level_and (and a b) (right ∷ p) h = omega (arith, size-get-le level_and b p h)
size-get-le level_or (or a b) (left ∷ p) h = omega (arith, size-get-le level_or a p h)
size-get-le level_or (or a b) (right ∷ p) h = omega (arith, size-get-le level_or b p h)
size-get-le l e (s ∷ p) h = absurd h

pub size-get-lt :
    (l : Level) (e : Expr) (p : Place) → InLevel l e p → p ≢ [] → size (get e p) < size e
unfolding get size
size-get-lt l e [] h ne = absurd (ne refl)
size-get-lt level_and (and a b) (left ∷ p) h ne =
    omega (arith, size-get-le level_and a p h, size-pos a, size-pos b)
size-get-lt level_and (and a b) (right ∷ p) h ne =
    omega (arith, size-get-le level_and b p h, size-pos a, size-pos b)
size-get-lt level_or (or a b) (left ∷ p) h ne =
    omega (arith, size-get-le level_or a p h, size-pos a, size-pos b)
size-get-lt level_or (or a b) (right ∷ p) h ne =
    omega (arith, size-get-le level_or b p h, size-pos a, size-pos b)
size-get-lt l e (s ∷ p) h ne = absurd h

pub get-IsReduced :
    (l : Level) (e : Expr) (p : Place) → InLevel l e p → IsReduced e → IsReduced (get e p)
unfolding get
get-IsReduced l e [] h r = r
get-IsReduced level_and (and a b) (left ∷ p) h r = get-IsReduced level_and a p h r.2
get-IsReduced level_and (and a b) (right ∷ p) h r = get-IsReduced level_and b p h r.3
get-IsReduced level_or (or a b) (left ∷ p) h r = get-IsReduced level_or a p h r.2
get-IsReduced level_or (or a b) (right ∷ p) h r = get-IsReduced level_or b p h r.3
get-IsReduced l e (s ∷ p) h r = absurd h

pub get-NotYn :
    (l : Level) (e : Expr) (p : Place) → InLevel l e p → p ≢ [] → IsReduced e → NotYn (get e p)
unfolding get
get-NotYn l e [] h ne r = absurd (ne refl)
get-NotYn level_and (and a b) (left ∷ []) h ne r = r.0
get-NotYn level_and (and a b) (left ∷ s ∷ p) h ne r = get-NotYn level_and a (s ∷ p) h (λ e. cc) r.2
get-NotYn level_and (and a b) (right ∷ []) h ne r = r.1
get-NotYn level_and (and a b) (right ∷ s ∷ p) h ne r = get-NotYn level_and b (s ∷ p) h (λ e. cc) r.3
get-NotYn level_or (or a b) (left ∷ []) h ne r = r.0
get-NotYn level_or (or a b) (left ∷ s ∷ p) h ne r = get-NotYn level_or a (s ∷ p) h (λ e. cc) r.2
get-NotYn level_or (or a b) (right ∷ []) h ne r = r.1
get-NotYn level_or (or a b) (right ∷ s ∷ p) h ne r = get-NotYn level_or b (s ∷ p) h (λ e. cc) r.3
get-NotYn l e (s ∷ p) h ne r = absurd h
