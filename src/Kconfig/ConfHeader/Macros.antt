-- ===== src/Kconfig/ConfHeader/Macros.antt =====
-- What the macros say that header_print_symbol of scripts/kconfig/confdata.c prints.
use lightbuild.Prelude.{◌≡◌, refl, true, ◌∷◌, ◌++◌, Bytes, codes, Bool-cases, inl, inr, []}
use lightbuild.Kconfig.Tristate.{Tristate, tri_no, tri_mod, tri_yes}
use lightbuild.Kconfig.Symbol.{
  SymbolType, hex, Sym, Table, IsCalculated, IsTristateLike, letter, sym_get_string_value,
  string-letter,
}
use lightbuild.Kconfig.Strto.{strtoll}
use lightbuild.Kconfig.StringValid.{sym_string_valid}
use lightbuild.Kconfig.StringValid.Number.{has_x}
use lightbuild.Kconfig.StringValid.Prefix.{strtoll-prefix}
use lightbuild.Kconfig.ConfHeader.{define_line, header_print_symbol}

-- A HEX value is printed with a prefix as a number that is valid and has the same value, however it is
-- written.
pub header_print_symbol-hex :
    (name value : Bytes)
    → sym_string_valid hex value ≡ true
    → (shown : Bytes) × (header_print_symbol hex name value ≡ define_line name shown)
      × (has_x shown ≡ true)
      × (sym_string_valid hex shown ≡ true)
      × ((strtoll 16 shown).value ≡ (strtoll 16 value).value)
unfolding header_print_symbol sym_string_valid
header_print_symbol-hex name value valid = elim (Bool-cases (has_x value)) [
  | inl x ↦ (value, (rw x refl), x, valid, refl)
  | inr plain ↦
      let (valid', same) = strtoll-prefix value valid plain in
      (b'0' ∷ b'x' ∷ value, (rw plain refl), refl, valid', same)
]

-- The macro for a value.
abbrev pub macro_of : Tristate → Bytes → Bytes
macro_of tri_no name = []
macro_of tri_mod name = define_line (name ++ codes "_MODULE") (codes "1")
macro_of tri_yes name = define_line (name ++ []) (codes "1")

tristate_macro :
    (type : SymbolType) (v : Tristate) (name : Bytes)
    → IsTristateLike type
    → header_print_symbol type name (letter v) ≡ macro_of v name
unfolding header_print_symbol
tristate_macro type tri_no name (inl e) = rw e refl
tristate_macro type tri_mod name (inl e) = rw e refl
tristate_macro type tri_yes name (inl e) = rw e refl
tristate_macro type tri_no name (inr e) = rw e refl
tristate_macro type tri_mod name (inr e) = rw e refl
tristate_macro type tri_yes name (inr e) = rw e refl

-- A calculated BOOLEAN or TRISTATE symbol gives no macro where it is `n`, one with the suffix _MODULE where
-- it is `m`, and one without where it is `y`.
pub header_print_symbol-macro_of :
    (t : Table) (x : Sym) (name : Bytes)
    → IsCalculated t
    → IsTristateLike (t.get x).type
    → header_print_symbol (t.get x).type name (sym_get_string_value t x)
      ≡ macro_of (t.get x).tri name
header_print_symbol-macro_of t x name c type =
    rw (string-letter t x c type) (tristate_macro (t.get x).type (t.get x).tri name type)
