-- ===== src/Kconfig/ConfHeader.antt =====
-- header_print_symbol of scripts/kconfig/confdata.c, which prints the lines of autoconf.h.
pub mod Macros
mod Tests
use lightbuild.Prelude.{
  Bool, true, false, Option, none, some, [], ◌∷◌, ◌++◌, Bytes, codes, ◌==◌, if◌then◌else◌, first,
}
use lightbuild.Kconfig.Symbol.{SymbolType, unknown, boolean, tristate, int, hex, string}
use lightbuild.Kconfig.StringValid.Number.{has_x}

abbrev pub define_line : Bytes → Bytes → Bytes
define_line name value = codes "#define CONFIG_" ++ (name ++ (b' ' ∷ (value ++ (10 ∷ []))))

abbrev pub define_one : Bytes → Bytes → Bytes
define_one name value =
    if first value == b'n'
    then []
    else define_line (name ++ (if first value == b'm' then codes "_MODULE" else [])) (codes "1")

abbrev pub with_prefix : Bytes → Bytes
with_prefix value = if has_x value then value else b'0' ∷ b'x' ∷ value

unfoldable pub header_print_symbol : SymbolType → Bytes → Bytes → Bytes
header_print_symbol boolean name value = define_one name value
header_print_symbol tristate name value = define_one name value
header_print_symbol hex name value = define_line name (with_prefix value)
header_print_symbol string name value = define_line name value
header_print_symbol int name value = define_line name value
header_print_symbol unknown name value = []
