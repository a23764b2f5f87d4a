-- ===== src/Prelude/Lists.antt =====
-- Lists measured and indexed by native numbers, byte strings and the tests of ctype.h.
use Prim.Native.Char.{code}
use Prim.Native.Nat.{ℕ, zero, suc, ◌+◌, ◌-◌, compare, Ordering}
use Prim.Native.String.{String}
use mathlib.Core.Bool.{Bool, true, false, ◌&&◌, ◌||◌}
use mathlib.Core.List.{List, [], ◌∷◌, ◌++◌}
use mathlib.Core.Logic.{◌↔◌}
use mathlib.Core.Path.{◌≡◌}
use native.Mathlib.Omega.{arith}
use lightbuild.Prelude.Tests.{leb, ◌==◌}

-- A C string without its terminating NUL.
abbrev pub Bytes : Type 0
Bytes = List ℕ

-- The bytes of an ASCII literal.
abbrev pub codes : String → Bytes
codes String.[] = []
codes (String.◌∷◌ c s) = code c ∷ codes s

module _ {ℓ} {A : Type ℓ} where
  abbrev pub length : List A → ℕ
  length [] = 0
  length (x ∷ xs) = suc (length xs)

  pub length-append : (xs ys : List A) → length (xs ++ ys) ≡ length xs + length ys
  length-append [] ys = omega arith
  length-append (x ∷ xs) ys = omega (arith, length-append xs ys)

module _ {ℓ} {A : Type ℓ} where
  abbrev pub take : ℕ → List A → List A
  take zero xs = []
  take (suc n) [] = []
  take (suc n) (x ∷ xs) = x ∷ take n xs

  abbrev pub drop : ℕ → List A → List A
  drop zero xs = xs
  drop (suc n) [] = []
  drop (suc n) (x ∷ xs) = drop n xs

  pub length-drop : (n : ℕ) (xs : List A) → length (drop n xs) ≡ length xs - n
  length-drop zero xs = omega arith
  length-drop (suc n) [] = omega arith
  length-drop (suc n) (x ∷ xs) = omega (arith, length-drop n xs)

-- The byte that a pointer into a C string reads: NUL at the end.
abbrev pub first : Bytes → ℕ
first [] = 0
first (c ∷ cs) = c

abbrev pub rest : Bytes → Bytes
rest [] = []
rest (c ∷ cs) = cs

-- strcmp: the order of the first bytes that differ; a proper prefix comes first.
unfoldable pub strcmp : Bytes → Bytes → Ordering
strcmp [] [] = Ordering.eq
strcmp [] (d ∷ ds) = Ordering.lt
strcmp (c ∷ cs) [] = Ordering.gt
strcmp (c ∷ cs) (d ∷ ds) =
    let tail = strcmp cs ds in
    elim (compare c d) [
      | Ordering.eq ↦ tail
      | Ordering.lt ↦ Ordering.lt
      | Ordering.gt ↦ Ordering.gt
    ]

abbrev pub streq : Bytes → Bytes → Bool
streq a b = elim (strcmp a b) [ Ordering.eq ↦ true | _ ↦ false ]

pub streq_iff : (a b : Bytes) → (streq a b ≡ true) ↔ (a ≡ b)
unfolding strcmp
streq_iff [] [] = ground arith
streq_iff [] (d ∷ ds) = ground arith
streq_iff (c ∷ cs) [] = ground arith
streq_iff (c ∷ cs) (d ∷ ds) = ground (arith, streq_iff cs ds)

abbrev within : ℕ → ℕ → ℕ → Bool
within lo hi c = leb lo c && leb c hi

-- The classes of the C locale.
unfoldable pub isdigit : ℕ → Bool
isdigit c = within b'0' b'9' c

unfoldable pub isxdigit : ℕ → Bool
isxdigit c = within b'0' b'9' c || within b'a' b'f' c || within b'A' b'F' c

unfoldable pub isspace : ℕ → Bool
isspace c = c == b' ' || within 9 13 c

unfoldable pub isalnum : ℕ → Bool
isalnum c = within b'0' b'9' c || within b'a' b'z' c || within b'A' b'Z' c
