-- ===== src/Kconfig/StringValid.antt =====
-- sym_string_valid of scripts/kconfig/symbol.c: the strings that a symbol's type allows.
pub mod Number
pub mod Prefix
use lightbuild.Prelude.{
  ℕ, suc, ◌-◌, Bool, true, false, ◌&&◌, ◌||◌, [], ◌∷◌, Bytes, ltb, ◌==◌, if◌then◌else◌, isdigit,
  isxdigit, first, rest,
}
use lightbuild.Kconfig.Tristate.{Tristate, tri_no, tri_mod, tri_yes}
use lightbuild.Kconfig.Symbol.{SymbolType, unknown, boolean, tristate, int, hex, string}

-- The loop over the remaining digits.
unfoldable pub all_digits : Bytes → Bool
all_digits [] = true
all_digits (c ∷ cs) = let more = all_digits cs in if isdigit c then more else false

unfoldable pub all_xdigits : Bytes → Bool
all_xdigits [] = true
all_xdigits (c ∷ cs) = let more = all_xdigits cs in if isxdigit c then more else false

-- The case S_INT behind the sign. The terminating NUL is no digit.
unfoldable pub digits_valid : Bytes → Bool
digits_valid [] = false
digits_valid (c ∷ cs) =
    if isdigit c
    then if c == b'0' && (if first cs == 0 then false else true) then false else all_digits cs
    else false

unfoldable pub int_valid : Bytes → Bool
int_valid str = if first str == b'-' then digits_valid (rest str) else digits_valid str

-- The do loop of the case S_HEX.
unfoldable pub xdigits_valid : Bytes → Bool
xdigits_valid [] = false
xdigits_valid (c ∷ cs) = if isxdigit c then all_xdigits cs else false

unfoldable pub hex_valid : Bytes → Bool
hex_valid str =
    if first str == b'0' && (first (rest str) == b'x' || first (rest str) == b'X')
    then xdigits_valid (rest (rest str))
    else xdigits_valid str

abbrev pub is_letter : ℕ → ℕ → ℕ → Bool
is_letter small big c = c == small || c == big

unfoldable pub tristate_valid : Bytes → Bool
tristate_valid str =
    is_letter b'y' b'Y' (first str)
    || is_letter b'm' b'M' (first str)
    || is_letter b'n' b'N' (first str)

unfoldable pub sym_string_valid : SymbolType → Bytes → Bool
sym_string_valid string str = true
sym_string_valid int str = int_valid str
sym_string_valid hex str = hex_valid str
sym_string_valid boolean str = tristate_valid str
sym_string_valid tristate str = tristate_valid str
sym_string_valid unknown str = false
