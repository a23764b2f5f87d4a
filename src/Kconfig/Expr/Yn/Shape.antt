-- ===== src/Kconfig/Expr/Yn/Shape.antt =====
-- The expressions that expr_eliminate_yn leaves: no operand is the constant `y` or `n`.
use lightbuild.Prelude.{◌≤◌, ◌<◌, ◌≡◌, refl, ap₂, ◌∙◌, false, arith, ◌⊎◌, inl, inr}
use native.Mathlib.Decide.{dec_lt}
use lightbuild.Kconfig.Symbol.{symbol_no, symbol_yes, Table, IsCalculated}
use lightbuild.Kconfig.Expr.{Expr, not, and, or, is_symbol, size}
use lightbuild.Kconfig.Expr.Value.{expr_calc_value}
use lightbuild.Kconfig.Expr.Yn.Laws.{value-eliminate_yn}
use lightbuild.Kconfig.Expr.Yn.{reduce_and, reduce_or, expr_eliminate_yn}

pub size-pos : (e : Expr) → 0 < size e
unfolding size
size-pos (not e) = omega arith
size-pos _ = omega arith

abbrev pub NotYn : Expr → Type 0
NotYn e = (is_symbol e symbol_no ≡ false) × (is_symbol e symbol_yes ≡ false)

abbrev pub IsReduced : Expr → Type 0
IsReduced (and a b) = NotYn a × NotYn b × IsReduced a × IsReduced b
IsReduced (or a b) = NotYn a × NotYn b × IsReduced a × IsReduced b
IsReduced _ = Unit

reduce_and-IsReduced : (l r : Expr) → IsReduced l → IsReduced r → IsReduced (reduce_and l r)
unfolding reduce_and
reduce_and-IsReduced l r hl hr = ground arith

reduce_or-IsReduced : (l r : Expr) → IsReduced l → IsReduced r → IsReduced (reduce_or l r)
unfolding reduce_or
reduce_or-IsReduced l r hl hr = ground arith

pub eliminate_yn-IsReduced : (e : Expr) → IsReduced (expr_eliminate_yn e)
unfolding expr_eliminate_yn
eliminate_yn-IsReduced (and a b) =
    reduce_and-IsReduced _ _ (eliminate_yn-IsReduced a) (eliminate_yn-IsReduced b)
eliminate_yn-IsReduced (or a b) =
    reduce_or-IsReduced _ _ (eliminate_yn-IsReduced a) (eliminate_yn-IsReduced b)
eliminate_yn-IsReduced _ = tt

reduce_and_self : (l r : Expr) → NotYn l → NotYn r → reduce_and l r ≡ and l r
unfolding reduce_and
reduce_and_self l r hl hr = ground arith

reduce_or_self : (l r : Expr) → NotYn l → NotYn r → reduce_or l r ≡ or l r
unfolding reduce_or
reduce_or_self l r hl hr = ground arith

-- A reduced expression is left as it is.
pub eliminate_yn-of_IsReduced : (e : Expr) → IsReduced e → expr_eliminate_yn e ≡ e
unfolding expr_eliminate_yn
eliminate_yn-of_IsReduced (and a b) h =
    ap₂ reduce_and (eliminate_yn-of_IsReduced a h.2) (eliminate_yn-of_IsReduced b h.3)
    ∙ reduce_and_self a b h.0 h.1
eliminate_yn-of_IsReduced (or a b) h =
    ap₂ reduce_or (eliminate_yn-of_IsReduced a h.2) (eliminate_yn-of_IsReduced b h.3)
    ∙ reduce_or_self a b h.0 h.1
eliminate_yn-of_IsReduced _ h = refl

size-reduce_and-le : (l r : Expr) → size (reduce_and l r) ≤ size (and l r)
unfolding reduce_and size
size-reduce_and-le l r = ground arith

size-reduce_or-le : (l r : Expr) → size (reduce_or l r) ≤ size (or l r)
unfolding reduce_or size
size-reduce_or-le l r = ground arith

pub size-eliminate_yn-le : (e : Expr) → size (expr_eliminate_yn e) ≤ size e
unfolding expr_eliminate_yn size
size-eliminate_yn-le (and a b) = omega (
  arith,
  size-reduce_and-le (expr_eliminate_yn a) (expr_eliminate_yn b),
  size-eliminate_yn-le a,
  size-eliminate_yn-le b,
)
size-eliminate_yn-le (or a b) = omega (
  arith,
  size-reduce_or-le (expr_eliminate_yn a) (expr_eliminate_yn b),
  size-eliminate_yn-le a,
  size-eliminate_yn-le b,
)
size-eliminate_yn-le _ = omega arith

reduce_and-NotYn : (l r : Expr) → size (and l r) ≤ size (reduce_and l r) → NotYn l × NotYn r
unfolding reduce_and size
reduce_and-NotYn l r h = ground (arith, size-pos l, size-pos r)

reduce_or-NotYn : (l r : Expr) → size (or l r) ≤ size (reduce_or l r) → NotYn l × NotYn r
unfolding reduce_or size
reduce_or-NotYn l r h = ground (arith, size-pos l, size-pos r)

-- An expression that does not get smaller has no constant operand.
pub IsReduced-of_size : (e : Expr) → size e ≤ size (expr_eliminate_yn e) → IsReduced e
unfolding expr_eliminate_yn size
IsReduced-of_size (and a b) h =
    let le = size-reduce_and-le (expr_eliminate_yn a) (expr_eliminate_yn b) in
    let ra = IsReduced-of_size a (omega (arith, le, size-eliminate_yn-le b)) in
    let rb = IsReduced-of_size b (omega (arith, le, size-eliminate_yn-le a)) in
    let (na, nb) =
      reduce_and-NotYn a b
        (rw (eliminate_yn-of_IsReduced a ra, eliminate_yn-of_IsReduced b rb) at h) in
    (na, nb, ra, rb)
IsReduced-of_size (or a b) h =
    let le = size-reduce_or-le (expr_eliminate_yn a) (expr_eliminate_yn b) in
    let ra = IsReduced-of_size a (omega (arith, le, size-eliminate_yn-le b)) in
    let rb = IsReduced-of_size b (omega (arith, le, size-eliminate_yn-le a)) in
    let (na, nb) =
      reduce_or-NotYn a b
        (rw (eliminate_yn-of_IsReduced a ra, eliminate_yn-of_IsReduced b rb) at h) in
    (na, nb, ra, rb)
IsReduced-of_size _ h = tt

-- expr_eliminate_yn keeps the value, leaves no `y` or `n` as an operand of && or ||, and a second
-- pass changes nothing; the result has fewer nodes unless no operand was `y` or `n`.
pub eliminate_yn_sound :
    (t : Table) (e : Expr)
    → IsCalculated t
    → (expr_calc_value t (expr_eliminate_yn e) ≡ expr_calc_value t e)
      × IsReduced (expr_eliminate_yn e)
      × (expr_eliminate_yn (expr_eliminate_yn e) ≡ expr_eliminate_yn e)
      × (IsReduced e ⊎ (size (expr_eliminate_yn e) < size e))
eliminate_yn_sound t e c = (
  value-eliminate_yn t c e,
  eliminate_yn-IsReduced e,
  eliminate_yn-of_IsReduced (expr_eliminate_yn e) (eliminate_yn-IsReduced e),
  elim (dec_lt (size (expr_eliminate_yn e)) (size e)) [
    | yes lt ↦ inr lt
    | no ge ↦ inl (IsReduced-of_size e (omega arith))
  ],
)
