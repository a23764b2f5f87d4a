-- ===== src/Kconfig/StringValid/Prefix.antt =====
-- Hexadecimal numbers with and without their prefix, for sym_string_valid and sym_set_string_value
-- of scripts/kconfig/symbol.c.
use lightbuild.Prelude.{
  ℕ, ◌-◌, ◌^◌, ◌≡◌, refl, sym, ap, ◌∙◌, Bool, true, false, Option, none, some, ◌∷◌, Bytes, ◌==◌,
  if◌then◌else◌, isxdigit, first, arith,
}
use lightbuild.Kconfig.Strto.{Run, scan, skip_spaces, run_of, unsigned_part, finish, strtoll}
use lightbuild.Kconfig.StringValid.{xdigits_valid, hex_valid}
use lightbuild.Kconfig.StringValid.Number.{
  first_xdigit, skip_spaces_digit, unsigned_part_digit, has_x, run_of_prefix, run_of_plain,
}

finish_value :
    (limit beyond : ℕ) (negative : Bool) (str other : Bytes) (r : Run)
    → (finish limit beyond negative str r).value ≡ (finish limit beyond negative other r).value
finish_value limit beyond negative str other r = by r.final refl
  where
    by :
        (f : Option ℕ)
        → r.final ≡ f
        → (finish limit beyond negative str r).value ≡ (finish limit beyond negative other r).value
    by none e = rw e refl
    by (some c) e = rw e refl

abbrev limit_of : Bytes → ℕ
limit_of s = if first s == b'-' then 2 ^ 63 else 2 ^ 63 - 1

-- The value of a number without sign is that of its run.
strtoll_value :
    (s : Bytes) (r : Run)
    → skip_spaces s ≡ s
    → unsigned_part s ≡ s
    → (first s == b'-') ≡ false
    → run_of 16 s ≡ r
    → (strtoll 16 s).value ≡ (finish (2 ^ 63 - 1) (2 ^ 63 - 1) false s r).value
unfolding strtoll
strtoll_value s r skips whole positive run =
    ap
      (λ u.
        (finish (limit_of u) (limit_of u) (first u == b'-') s (run_of 16 (unsigned_part u))).value)
      skips
    ∙ ap (λ u. (finish (limit_of s) (limit_of s) (first s == b'-') s (run_of 16 u)).value) whole
    ∙ ap (λ q. (finish (limit_of s) (limit_of s) (first s == b'-') s q).value) run
    ∙ ap
        (λ b.
          (finish (if b then 2 ^ 63 else 2 ^ 63 - 1) (if b then 2 ^ 63 else 2 ^ 63 - 1) b s
            r).value)
        positive

not_minus : (s : Bytes) → isxdigit (first s) ≡ true → (first s == b'-') ≡ false
unfolding isxdigit
not_minus s h = ground arith

zero_digit : isxdigit b'0' ≡ true
unfolding isxdigit
zero_digit = ground arith

-- A hexadecimal number without its prefix has the same value with it, and is as valid.
pub strtoll-prefix :
    (s : Bytes)
    → hex_valid s ≡ true
    → has_x s ≡ false
    → (hex_valid (b'0' ∷ b'x' ∷ s) ≡ true)
      × ((strtoll 16 (b'0' ∷ b'x' ∷ s)).value ≡ (strtoll 16 s).value)
unfolding hex_valid
strtoll-prefix s h plain =
    let v : xdigits_valid s ≡ true = ground (arith, plain) in
    let d = first_xdigit s v in
    (
      v,
      strtoll_value (b'0' ∷ b'x' ∷ s) (scan 16 0 none s)
            (skip_spaces_digit (b'0' ∷ b'x' ∷ s) zero_digit) refl refl
            (run_of_prefix (b'0' ∷ b'x' ∷ s) d)
          ∙ finish_value _ _ false (b'0' ∷ b'x' ∷ s) s (scan 16 0 none s)
          ∙ sym (
              strtoll_value s (scan 16 0 none s) (skip_spaces_digit s d) (unsigned_part_digit s d)
                (not_minus s d) (run_of_plain s (ground (arith, plain)))),
    )
