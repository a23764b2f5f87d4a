-- ===== src/Fixdep/Table/Path.antt =====
-- The shape of the paths that print_dep of scripts/basic/fixdep.c writes.
use lightbuild.Prelude.{
  ℕ, ◌≡◌, refl, Bool, true, false, ◌&&◌, ◌||◌, [], ◌∷◌, Bytes, leb, ◌==◌, if◌then◌else◌, Bool-cases,
  inl, inr, arith, subst,
}
use lightbuild.Fixdep.Table.{dep_byte, dep_path}

abbrev pub is_upper : ℕ → Bool
is_upper c = leb b'A' c && leb c b'Z'

-- Behind `prev`: no byte is `_` or an upper-case letter, and no two `/` stand together.
abbrev pub is_clean : ℕ → Bytes → Bool
is_clean prev [] = true
is_clean prev (c ∷ cs) =
    (if c == b'_' || is_upper c || (c == b'/' && prev == b'/') then false else true)
    && is_clean c cs

dep_byte-clean : (x : ℕ) → (dep_byte x == b'_' || is_upper (dep_byte x)) ≡ false
dep_byte-clean x = ground arith

same_slash : (a b : ℕ) → (a == b'/' && b == b'/') ≡ true → a ≡ b
same_slash a b h = ground arith

clean_step :
    (a b c d : Bool)
    → (a || b) ≡ false
    → c ≡ false
    → d ≡ true
    → ((if a || b || c then false else true) && d) ≡ true
clean_step a b c d h k e = ground arith

-- The path that stands for an option, behind `prev`, has no `_`, no upper-case letter and no empty
-- component; behind `/` it does not start with another one.
pub dep_path-is_clean : (prev : ℕ) (xs : Bytes) → is_clean prev (dep_path prev xs) ≡ true
unfolding dep_path
dep_path-is_clean prev [] = refl
dep_path-is_clean prev (x ∷ xs) = elim (Bool-cases (dep_byte x == b'/' && prev == b'/')) [
  | inl skipped ↦ rw skipped (
      subst (λ p. is_clean p (dep_path (dep_byte x) xs) ≡ true)
        (same_slash (dep_byte x) prev skipped) (dep_path-is_clean (dep_byte x) xs))
  | inr kept ↦ rw kept (
      clean_step (dep_byte x == b'_') (is_upper (dep_byte x)) (dep_byte x == b'/' && prev == b'/')
        (is_clean (dep_byte x) (dep_path (dep_byte x) xs)) (dep_byte-clean x) kept
        (dep_path-is_clean (dep_byte x) xs))
]
