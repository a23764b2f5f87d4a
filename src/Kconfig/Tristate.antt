-- ===== src/Kconfig/Tristate.antt =====
-- `enum tristate` and the macros EXPR_OR, EXPR_AND and EXPR_NOT of scripts/kconfig/expr.h.
use lightbuild.Prelude.{
  ℕ, ◌-◌, ◌≤◌, ◌≡◌, refl, Bool, true, false, arith, ltb, ◌==◌, if◌then◌else◌, ◌⊎◌, inl, inr, ◌↔◌,
}

pub data Tristate : Type 0 where
  tri_no tri_mod tri_yes : Tristate

-- The number that an enumerator stands for, and the enumerator of a number.
abbrev pub rank : Tristate → ℕ
rank tri_no = 0
rank tri_mod = 1
rank tri_yes = 2

abbrev pub of_rank : ℕ → Tristate
of_rank n = if n == 0 then tri_no else if n == 1 then tri_mod else tri_yes

unfoldable pub expr_or : Tristate → Tristate → Tristate
expr_or a b = if ltb (rank b) (rank a) then a else b

unfoldable pub expr_and : Tristate → Tristate → Tristate
expr_and a b = if ltb (rank a) (rank b) then a else b

unfoldable pub expr_not : Tristate → Tristate
expr_not a = of_rank (2 - rank a)

abbrev pub tri_eq : Tristate → Tristate → Bool
tri_eq a b = rank a == rank b

-- What a comparison gives: `cond ? yes : no`.
abbrev pub of_bool : Bool → Tristate
of_bool true = tri_yes
of_bool false = tri_no

pub Tristate-cases : (a : Tristate) → (a ≡ tri_no) ⊎ ((a ≡ tri_mod) ⊎ (a ≡ tri_yes))
Tristate-cases tri_no = inl refl
Tristate-cases tri_mod = inr (inl refl)
Tristate-cases tri_yes = inr (inr refl)

pub tri_eq_iff : (a b : Tristate) → (tri_eq a b ≡ true) ↔ (a ≡ b)
tri_eq_iff a b = ground arith

pub and_comm : (a b : Tristate) → expr_and a b ≡ expr_and b a
unfolding expr_and
and_comm a b = ground arith

pub or_comm : (a b : Tristate) → expr_or a b ≡ expr_or b a
unfolding expr_or
or_comm a b = ground arith

pub and_assoc : (a b c : Tristate) → expr_and (expr_and a b) c ≡ expr_and a (expr_and b c)
unfolding expr_and
and_assoc a b c = ground arith

pub or_assoc : (a b c : Tristate) → expr_or (expr_or a b) c ≡ expr_or a (expr_or b c)
unfolding expr_or
or_assoc a b c = ground arith

pub and_self : (a : Tristate) → expr_and a a ≡ a
unfolding expr_and
and_self a = ground arith

pub or_self : (a : Tristate) → expr_or a a ≡ a
unfolding expr_or
or_self a = ground arith

pub no_and : (a : Tristate) → expr_and tri_no a ≡ tri_no
unfolding expr_and
no_and a = ground arith

pub and_no : (a : Tristate) → expr_and a tri_no ≡ tri_no
unfolding expr_and
and_no a = ground arith

pub yes_and : (a : Tristate) → expr_and tri_yes a ≡ a
unfolding expr_and
yes_and a = ground arith

pub and_yes : (a : Tristate) → expr_and a tri_yes ≡ a
unfolding expr_and
and_yes a = ground arith

pub no_or : (a : Tristate) → expr_or tri_no a ≡ a
unfolding expr_or
no_or a = ground arith

pub or_no : (a : Tristate) → expr_or a tri_no ≡ a
unfolding expr_or
or_no a = ground arith

pub yes_or : (a : Tristate) → expr_or tri_yes a ≡ tri_yes
unfolding expr_or
yes_or a = ground arith

pub or_yes : (a : Tristate) → expr_or a tri_yes ≡ tri_yes
unfolding expr_or
or_yes a = ground arith

pub not-not : (a : Tristate) → expr_not (expr_not a) ≡ a
unfolding expr_not
not-not a = ground arith

pub not-or : (a b : Tristate) → expr_not (expr_or a b) ≡ expr_and (expr_not a) (expr_not b)
unfolding expr_not expr_or expr_and
not-or a b = ground arith

pub not-and : (a b : Tristate) → expr_not (expr_and a b) ≡ expr_or (expr_not a) (expr_not b)
unfolding expr_not expr_or expr_and
not-and a b = ground arith

-- The lattice order that `depends on` bounds are read in.
pub and-le : (a b : Tristate) → rank (expr_and a b) ≤ rank b
unfolding expr_and
and-le a b = ground arith
