-- ===== src/Kconfig/Strto.antt =====
-- strtoll and strtoull of the C library, as expr.c and symbol.c use them: a 64-bit result, the
-- rest of the string and whether errno is set to ERANGE. A `long long` is its bit pattern.
use lightbuild.Prelude.{
  ℕ, ◌+◌, ◌-◌, ◌*◌, ◌%◌, ◌^◌, Bool, true, false, ◌&&◌, ◌||◌, Option, none, some, [], ◌∷◌, Bytes,
  ltb, leb, ◌==◌, if◌then◌else◌, isspace, isxdigit, first, rest,
}

abbrev pub word : ℕ
word = 2 ^ 64

-- `last` is the byte before `tail`, where a digit has been read.
pub record Number : Type 0 where
  pub value : ℕ
  pub tail : Bytes
  pub last : Option ℕ
  pub range_error : Bool

-- The value of a digit, for bases up to 36.
unfoldable pub digit_value : ℕ → ℕ
digit_value c =
    if leb b'0' c && leb c b'9'
    then c - b'0'
    else if leb b'a' c && leb c b'z'
    then c - b'a' + 10
    else if leb b'A' c && leb c b'Z'
    then c - b'A' + 10
    else 255

pub record Run : Type 0 where
  pub magnitude : ℕ
  pub end : Bytes
  pub final : Option ℕ

-- The longest run of digits.
unfoldable pub scan : ℕ → ℕ → Option ℕ → Bytes → Run
scan base acc final [] = record { magnitude = acc; end = []; final = final }
scan base acc final (c ∷ cs) =
    let more = scan base (acc * base + digit_value c) (some c) cs in
    if ltb (digit_value c) base
    then more
    else record { magnitude = acc; end = c ∷ cs; final = final }

unfoldable pub skip_spaces : Bytes → Bytes
skip_spaces [] = []
skip_spaces (c ∷ cs) = let more = skip_spaces cs in if isspace c then more else c ∷ cs

-- "0x" or "0X" before a hexadecimal digit.
abbrev pub has_hex_prefix : Bytes → Bool
has_hex_prefix s =
    first s == b'0'
    && ((first (rest s) == b'x' || first (rest s) == b'X') && isxdigit (first (rest (rest s))))

-- The run after the sign, with the base worked out from the prefix where it is 0.
unfoldable pub run_of : ℕ → Bytes → Run
unfolding scan digit_value isxdigit
run_of base s =
    if (base == 16 || base == 0) && has_hex_prefix s
    then scan 16 0 none (rest (rest s))
    else if base == 0
    then scan (if first s == b'0' then 8 else 10) 0 none s
    else scan base 0 none s

abbrev pub is_sign : ℕ → Bool
is_sign c = c == b'-' || c == b'+'

abbrev pub unsigned_part : Bytes → Bytes
unsigned_part s = if is_sign (first s) then rest s else s

-- Two's complement of a magnitude.
abbrev pub signed_word : Bool → ℕ → ℕ
signed_word negative n = if negative then (word - n) % word else n

-- The largest magnitude, and the value beyond it.
abbrev pub finish : ℕ → ℕ → Bool → Bytes → Run → Number
finish limit beyond negative str r = elim r.final [
  | none ↦ record { value = 0; tail = str; last = none; range_error = false }
  | some c ↦
      let fits = leb r.magnitude limit in
      record {
        value = if fits then signed_word negative r.magnitude else beyond;
        tail = r.end;
        last = some c;
        range_error = if fits then false else true;
      }
]

unfoldable pub strtoll : ℕ → Bytes → Number
unfolding skip_spaces isspace run_of
strtoll base str =
    let s = skip_spaces str in
    let negative = first s == b'-' in
    finish (if negative then 2 ^ 63 else 2 ^ 63 - 1) (if negative then 2 ^ 63 else 2 ^ 63 - 1)
      negative str (run_of base (unsigned_part s))

unfoldable pub strtoull : ℕ → Bytes → Number
unfolding skip_spaces isspace run_of
strtoull base str =
    let s = skip_spaces str in
    finish (word - 1) (word - 1) (first s == b'-') str (run_of base (unsigned_part s))

-- The order of two `long long` bit patterns: flip the sign bit.
abbrev pub signed_key : ℕ → ℕ
signed_key w = (w + 2 ^ 63) % word
