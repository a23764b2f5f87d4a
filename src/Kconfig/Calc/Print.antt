-- ===== src/Kconfig/Calc/Print.antt =====
-- The numbers that sym_validate_range of scripts/kconfig/symbol.c prints, read again.
use native.Mathlib.Numerals.{unary_clauses}
use native.Mathlib.Nat.{mod-lt, div-add-mod', div-lt_iff_lt-mul, pow-suc}
use lightbuild.Prelude.{
  ℕ, zero, suc, ◌+◌, ◌*◌, ◌-◌, ◌/◌, ◌%◌, ◌^◌, ◌≤◌, ◌<◌, ◌≡◌, refl, sym, ap, ◌∙◌, subst, true, false,
  Option, none, some, [], ◌∷◌, Bytes, ltb, ◌==◌, ==_iff, if◌then◌else◌, isspace, isxdigit, first,
  Bool, leb, ◌⊎◌, Bool-cases, inl, inr, arith,
}
use lightbuild.Kconfig.Strto.{
  Run, digit_value, scan, skip_spaces, run_of, unsigned_part, finish, strtoll, word,
}
use lightbuild.Kconfig.Calc.Choice.{digits, print_decimal, print_hex}

abbrev shown : ℕ → ℕ
shown d = if ltb d 10 then b'0' + d else b'a' + (d - 10)

digit_value-shown : (d : ℕ) → d < 16 → digit_value (shown d) ≡ d
unfolding digit_value
digit_value-shown d h = ground (arith, h)

scan-shown :
    (base acc d : ℕ) (final : Option ℕ) (cs : Bytes)
    → base ≤ 16
    → d < base
    → scan base acc final (shown d ∷ cs) ≡ scan base (acc * base + d) (some (shown d)) cs
unfolding scan
scan-shown base acc d final cs b h =
    let v = digit_value-shown d (omega (arith, b, h)) in
    let small : ltb (digit_value (shown d)) base ≡ true = rw v (ground (arith, h)) in
    rw small (rw v refl)

digits-last :
    (f base n : ℕ) (rest : Bytes)
    → (n / base == 0) ≡ true
    → digits (suc f) base n rest ≡ shown (n % base) ∷ rest
unfolding digits
digits-last f base n rest h = rw h refl

digits-more :
    (f base n : ℕ) (rest : Bytes)
    → (n / base == 0) ≡ false
    → digits (suc f) base n rest ≡ digits f base (n / base) (shown (n % base) ∷ rest)
unfolding digits
digits-more f base n rest h = rw h refl

has_fuel : (base f n : ℕ) → (n / base == 0) ≡ false → n / base < base ^ f → 0 < f
has_fuel base zero n more less =
    let one : base ^ 0 ≡ 1 = simp unary_clauses refl in absurd (ground (arith, more, less, one))
has_fuel base (suc f) n more less = omega arith

-- The digits of a number are read as that number.
scan-digits :
    (base f n : ℕ) (rest : Bytes)
    → base ≤ 16
    → 1 < base
    → n < base ^ f
    → 0 < f
    → (c : ℕ) × (scan base 0 none (digits f base n rest) ≡ scan base n (some c) rest)
scan-digits base zero n rest b big h pos = absurd (omega (arith, pos))
scan-digits base (suc f) n rest b big h pos =
    let d = n % base in
    let small : d < base = mod-lt n (omega (arith, big)) in
    elim (Bool-cases (n / base == 0)) [
      | inl last ↦
          let zero_div = (==_iff (n / base) 0).0 last in
          let whole : 0 * base + d ≡ n =
            ap (λ q. q * base + d) (sym zero_div) ∙ div-add-mod' n base in
          (
            shown d,
            ap (scan base 0 none) (digits-last f base n rest last)
                ∙ scan-shown base 0 d none rest b small
                ∙ ap (λ a. scan base a (some (shown d)) rest) whole,
          )
      | inr more ↦
          let less : n / base < base ^ f =
            (div-lt_iff_lt-mul (omega (arith, big))).1 (subst (λ q. n < q) (pow-suc base f) h) in
          let (c, ih) =
            scan-digits base f (n / base) (shown d ∷ rest) b big less
              (has_fuel base f n more less) in
          (
            shown d,
            ap (scan base 0 none) (digits-more f base n rest more)
                ∙ ih
                ∙ scan-shown base (n / base) d (some c) rest b small
                ∙ ap (λ a. scan base a (some (shown d)) rest) (div-add-mod' n base),
          )
    ]

digits-one : (base n : ℕ) (rest : Bytes) → digits 1 base n rest ≡ shown (n % base) ∷ rest
unfolding digits
digits-one base n rest = elim (Bool-cases (n / base == 0)) [
  | inl last ↦ rw last refl
  | inr more ↦ rw more refl
]

-- There is a first digit.
digits-head :
    (base f n : ℕ) (rest : Bytes)
    → 1 < base
    → (d : ℕ) × (tail : Bytes) × (d < base) × (digits (suc f) base n rest ≡ shown d ∷ tail)
digits-head base zero n rest big =
    (n % base, rest, mod-lt n (omega (arith, big)), digits-one base n rest)
digits-head base (suc f) n rest big = elim (Bool-cases (n / base == 0)) [
  | inl last ↦ (n % base, rest, mod-lt n (omega (arith, big)), digits-last (suc f) base n rest last)
  | inr more ↦
      let (d, tail, small, e) = digits-head base f (n / base) (shown (n % base) ∷ rest) big in
      (d, tail, small, digits-more (suc f) base n rest more ∙ e)
]

shown_plain : (d : ℕ) → d < 16 → (isspace (shown d) ≡ false) × (isxdigit (shown d) ≡ true)
unfolding isspace isxdigit
shown_plain d h = (ground (arith, h), ground (arith, h))

-- No space and no sign is skipped before a digit.
starts_plain :
    (s : Bytes) (d : ℕ) (tail : Bytes)
    → d < 16
    → s ≡ shown d ∷ tail
    → (skip_spaces s ≡ s) × ((first s == b'-') ≡ false) × ((first s == b'+') ≡ false)
unfolding skip_spaces
starts_plain s d tail h e =
    let (space, hex) = shown_plain d h in
    rw e ((rw space refl), (ground (arith, h)), (ground (arith, h)))

finish_positive :
    (base v c : ℕ) (str : Bytes)
    → v < 2 ^ 63
    → (finish (2 ^ 63 - 1) (2 ^ 63 - 1) false str (scan base v (some c) [])).value ≡ v
unfolding scan
finish_positive base v c str h = ground (arith, h)

finish_negative :
    (v c : ℕ) (str : Bytes)
    → 2 ^ 63 ≤ v
    → v < 2 ^ 64
    → (finish (2 ^ 63) (2 ^ 63) true str (scan 10 (word - v) (some c) [])).value ≡ v
unfolding scan
finish_negative v c str low high = ground (arith, low, high)

finish_lt :
    (limit beyond : ℕ) (negative : Bool) (str : Bytes) (r : Run)
    → limit < 2 ^ 64
    → beyond < 2 ^ 64
    → (finish limit beyond negative str r).value < 2 ^ 64
finish_lt limit beyond negative str r l b = by r.final negative (Bool-cases (leb r.magnitude limit))
  where
    by :
        (final : Option ℕ) (negative : Bool)
        → (leb r.magnitude limit ≡ true) ⊎ (leb r.magnitude limit ≡ false)
        → (finish limit beyond negative str (record r { final = final })).value < 2 ^ 64
    by none negative fits = omega arith
    by (some c) negative (inr over) = rw over b
    by (some c) true (inl fits) = rw fits (mod-lt (word - r.magnitude) (omega arith))
    by (some c) false (inl fits) = rw fits (ground (arith, fits, l))

-- A `long long` has 64 bits.
pub strtoll_lt : (base : ℕ) (str : Bytes) → (strtoll base str).value < 2 ^ 64
unfolding strtoll
strtoll_lt base str =
    by (first (skip_spaces str) == b'-') (run_of base (unsigned_part (skip_spaces str)))
  where
    by :
        (negative : Bool) (r : Run)
        → (finish
            (if negative then 2 ^ 63 else 2 ^ 63 - 1)
            (if negative then 2 ^ 63 else 2 ^ 63 - 1)
            negative
            str
            r).value
          < 2 ^ 64
    by true r = finish_lt (2 ^ 63) (2 ^ 63) true str r (omega arith) (omega arith)
    by false r = finish_lt (2 ^ 63 - 1) (2 ^ 63 - 1) false str r (omega arith) (omega arith)

-- The value that sym_validate_range prints for an INT symbol is read as the same 64-bit number by
-- strtoll.
pub strtoll-print_decimal : (v : ℕ) → v < 2 ^ 64 → (strtoll 10 (print_decimal v)).value ≡ v
unfolding strtoll print_decimal skip_spaces run_of isspace
strtoll-print_decimal v h = elim (Bool-cases (ltb v (word / 2))) [
  | inl positive ↦
      let (d, tail, small, e) = digits-head 10 19 v [] (omega arith) in
      let (c, scanned) =
        scan-digits 10 20 v [] (omega arith) (omega arith) (omega (arith, h)) (omega arith) in
      let (skipped, minus, plain) =
        starts_plain (digits 20 10 v []) d tail (omega (arith, small)) e in
      rw positive
        (rw (skipped, minus, plain, scanned) (finish_positive 10 v c [] (ground (arith, positive))))
  | inr negative ↦
      let (c, scanned) =
        scan-digits 10 20 (word - v) [] (omega arith) (omega arith) (omega (arith, h))
          (omega arith) in
      rw negative (rw scanned (finish_negative v c [] (ground (arith, negative)) h))
]

hex_head :
    (s : Bytes) (d : ℕ) (tail : Bytes) → d < 16 → s ≡ shown d ∷ tail → isxdigit (first s) ≡ true
hex_head s d tail h e = let (space, hex) = shown_plain d h in rw e hex

-- The value that sym_validate_range prints for a HEX symbol is read as the same number by strtoll, as long
-- as it is no more than the largest `long long`.
pub strtoll-print_hex : (v : ℕ) → v < 2 ^ 63 → (strtoll 16 (print_hex v)).value ≡ v
unfolding strtoll print_hex skip_spaces run_of isspace
strtoll-print_hex v h =
    let (d, tail, small, e) = digits-head 16 19 v [] (omega arith) in
    let (c, scanned) =
      scan-digits 16 20 v [] (omega arith) (omega arith) (omega (arith, h)) (omega arith) in
    rw (hex_head (digits 20 16 v []) d tail small e, scanned) (finish_positive 16 v c [] h)
