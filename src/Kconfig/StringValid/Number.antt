-- ===== src/Kconfig/StringValid/Number.antt =====
-- The strings that sym_string_valid of scripts/kconfig/symbol.c takes for numbers are read whole.
use lightbuild.Prelude.{
  ℕ, ◌+◌, ◌*◌, ◌≡◌, ◌≢◌, refl, sym, ap, ◌∙◌, Bool, true, false, ◌&&◌, ◌||◌, Option, none, some, [],
  ◌∷◌, Bytes, ltb, subst, ◌==◌, ==_iff, isdigit, isxdigit, isspace, first, rest, Bool-cases, inl,
  inr, arith,
}
use lightbuild.Kconfig.Symbol.{int, hex}
use lightbuild.Kconfig.Strto.{
  Run, digit_value, scan, skip_spaces, has_hex_prefix, run_of, unsigned_part, finish, strtoll,
}
use lightbuild.Kconfig.StringValid.{
  all_digits, all_xdigits, digits_valid, int_valid, xdigits_valid, hex_valid, sym_string_valid,
}

digit_below : (c : ℕ) → isdigit c ≡ true → ltb (digit_value c) 10 ≡ true
unfolding isdigit digit_value
digit_below c h = ground arith

xdigit_below : (c : ℕ) → isxdigit c ≡ true → ltb (digit_value c) 16 ≡ true
unfolding isxdigit digit_value
xdigit_below c h = ground arith

-- A run that ends at the end of the string with a digit before it.
abbrev pub Whole : Run → Type 0
Whole r = (r.end ≡ []) × (r.final ≢ none)

scan_digits : (acc c : ℕ) (cs : Bytes) → all_digits cs ≡ true → Whole (scan 10 acc (some c) cs)
unfolding scan all_digits
scan_digits acc c [] h = (refl, λ e. absurd (cc))
scan_digits acc c (d ∷ ds) h = elim (Bool-cases (isdigit d)) [
  | inl digit ↦
      rw (digit_below d digit) (scan_digits (acc * 10 + digit_value d) d ds (ground (arith, digit)))
  | inr other ↦ absurd (ground (arith, other))
]

scan_xdigits : (acc c : ℕ) (cs : Bytes) → all_xdigits cs ≡ true → Whole (scan 16 acc (some c) cs)
unfolding scan all_xdigits
scan_xdigits acc c [] h = (refl, λ e. absurd (cc))
scan_xdigits acc c (d ∷ ds) h = elim (Bool-cases (isxdigit d)) [
  | inl digit ↦
      rw (xdigit_below d digit)
        (scan_xdigits (acc * 16 + digit_value d) d ds (ground (arith, digit)))
  | inr other ↦ absurd (ground (arith, other))
]

scan-digits_valid : (s : Bytes) → digits_valid s ≡ true → Whole (scan 10 0 none s)
unfolding scan digits_valid
scan-digits_valid [] h = absurd (cc)
scan-digits_valid (c ∷ cs) h = elim (Bool-cases (isdigit c)) [
  | inl digit ↦
      rw (digit_below c digit) (scan_digits (0 * 10 + digit_value c) c cs (ground (arith, digit)))
  | inr other ↦ absurd (ground (arith, other))
]

scan-xdigits_valid : (s : Bytes) → xdigits_valid s ≡ true → Whole (scan 16 0 none s)
unfolding scan xdigits_valid
scan-xdigits_valid [] h = absurd (cc)
scan-xdigits_valid (c ∷ cs) h = elim (Bool-cases (isxdigit c)) [
  | inl digit ↦
      rw (xdigit_below c digit) (scan_xdigits (0 * 16 + digit_value c) c cs (ground (arith, digit)))
  | inr other ↦ absurd (ground (arith, other))
]

first_digit : (s : Bytes) → digits_valid s ≡ true → isxdigit (first s) ≡ true
unfolding digits_valid isdigit isxdigit
first_digit [] h = absurd (cc)
first_digit (c ∷ cs) h = ground arith

pub first_xdigit : (s : Bytes) → xdigits_valid s ≡ true → isxdigit (first s) ≡ true
unfolding xdigits_valid
first_xdigit [] h = absurd (cc)
first_xdigit (c ∷ cs) h = ground arith

-- A string that starts with a digit starts with neither a blank nor a sign.
pub skip_spaces_digit : (s : Bytes) → isxdigit (first s) ≡ true → skip_spaces s ≡ s
unfolding skip_spaces isspace isxdigit
skip_spaces_digit [] h = refl
skip_spaces_digit (c ∷ cs) h = ground arith

pub unsigned_part_digit : (s : Bytes) → isxdigit (first s) ≡ true → unsigned_part s ≡ s
unfolding isxdigit
unsigned_part_digit s h = ground arith

finish-Whole :
    (limit beyond : ℕ) (negative : Bool) (str : Bytes) (r : Run)
    → Whole r
    → (finish limit beyond negative str r).tail ≡ []
finish-Whole limit beyond negative str r (done, digit) = by r.final refl
  where
    by : (f : Option ℕ) → r.final ≡ f → (finish limit beyond negative str r).tail ≡ []
    by none e = absurd (digit e)
    by (some c) e = rw e done

strtoll-Whole :
    (base : ℕ) (str : Bytes)
    → skip_spaces str ≡ str
    → Whole (run_of base (unsigned_part str))
    → (strtoll base str).tail ≡ []
unfolding strtoll
strtoll-Whole base str skips whole =
    finish-Whole _ _ _ str (run_of base (unsigned_part (skip_spaces str)))
      (subst (λ s. Whole (run_of base (unsigned_part s))) (sym skips) whole)

run_of_decimal : (s : Bytes) → run_of 10 s ≡ scan 10 0 none s
unfolding run_of
run_of_decimal s = refl

no_space : (c : ℕ) (cs : Bytes) → c ≡ b'-' → skip_spaces (c ∷ cs) ≡ c ∷ cs
unfolding skip_spaces isspace
no_space c cs e = rw e refl

no_sign : (c : ℕ) (cs : Bytes) → c ≡ b'-' → unsigned_part (c ∷ cs) ≡ cs
no_sign c cs e = rw e refl

int_whole : (str : Bytes) → int_valid str ≡ true → (strtoll 10 str).tail ≡ []
unfolding int_valid
int_whole str h = elim (Bool-cases (first str == b'-')) [
  | inl negative ↦ minus str negative (ground (arith, negative))
  | inr other ↦ plain (ground (arith, other))
]
  where
    plain : digits_valid str ≡ true → (strtoll 10 str).tail ≡ []
    plain v = strtoll-Whole 10 str (skip_spaces_digit str (first_digit str v)) (
        subst Whole
          (sym (ap (run_of 10) (unsigned_part_digit str (first_digit str v)) ∙ run_of_decimal str))
          (scan-digits_valid str v))

    minus :
        (s : Bytes)
        → first s == b'-' ≡ true
        → digits_valid (rest s) ≡ true
        → (strtoll 10 s).tail ≡ []
    minus [] e v = absurd (cc)
    minus (c ∷ cs) e v = strtoll-Whole 10 (c ∷ cs) (no_space c cs ((==_iff c b'-').0 e)) (
        subst Whole (sym (ap (run_of 10) (no_sign c cs ((==_iff c b'-').0 e)) ∙ run_of_decimal cs))
          (scan-digits_valid cs v))

abbrev pub has_x : Bytes → Bool
has_x str = first str == b'0' && (first (rest str) == b'x' || first (rest str) == b'X')

pub run_of_prefix :
    (s : Bytes) → has_hex_prefix s ≡ true → run_of 16 s ≡ scan 16 0 none (rest (rest s))
unfolding run_of
run_of_prefix s h = rw h refl

pub run_of_plain : (s : Bytes) → has_hex_prefix s ≡ false → run_of 16 s ≡ scan 16 0 none s
unfolding run_of
run_of_plain s h = rw h refl

zero_is_digit : (s : Bytes) → has_x s ≡ true → isxdigit (first s) ≡ true
unfolding isxdigit
zero_is_digit s h = ground arith

hex_whole : (str : Bytes) → hex_valid str ≡ true → (strtoll 16 str).tail ≡ []
unfolding hex_valid
hex_whole str h = elim (Bool-cases (has_x str)) [
  | inl x ↦
      let v : xdigits_valid (rest (rest str)) ≡ true = ground (arith, x) in
      by str (zero_is_digit str x) (
        subst Whole (sym (run_of_prefix str (ground (arith, x, first_xdigit (rest (rest str)) v))))
          (scan-xdigits_valid (rest (rest str)) v))
  | inr other ↦
      let v : xdigits_valid str ≡ true = ground (arith, other) in
      by str (first_xdigit str v)
        (subst Whole (sym (run_of_plain str (ground (arith, other)))) (scan-xdigits_valid str v))
]
  where
    by : (s : Bytes) → isxdigit (first s) ≡ true → Whole (run_of 16 s) → (strtoll 16 s).tail ≡ []
    by s d whole =
        strtoll-Whole 16 s (skip_spaces_digit s d)
          (subst (λ u. Whole (run_of 16 u)) (sym (unsigned_part_digit s d)) whole)

-- strtoll reads a string that is valid for an INT symbol whole in base 10, and one that is valid for
-- a HEX symbol whole in base 16, its sign or prefix included.
pub strtoll-sym_string_valid :
    (str : Bytes)
    → (sym_string_valid int str ≡ true → (strtoll 10 str).tail ≡ [])
      × (sym_string_valid hex str ≡ true → (strtoll 16 str).tail ≡ [])
unfolding sym_string_valid
strtoll-sym_string_valid str = (int_whole str, hex_whole str)
