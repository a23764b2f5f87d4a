-- ===== src/Kconfig/ConfHeader/Tests.antt =====
-- Lines of autoconf.h.
use lightbuild.Prelude.{isxdigit, ◌≡◌, refl, true, codes, Bytes, inr}
use lightbuild.Kconfig.Tristate.{tri_no}
use lightbuild.Kconfig.Symbol.{hex, tristate, sym_get_string_value}
use lightbuild.Kconfig.Strto.{strtoll}
use lightbuild.Kconfig.StringValid.{sym_string_valid, hex_valid, xdigits_valid, all_xdigits}
use lightbuild.Kconfig.StringValid.Number.{has_x}
use lightbuild.Kconfig.Store.{table}
use lightbuild.Kconfig.Samples.{two_symbols, two_symbols-IsCalculated}
use lightbuild.Kconfig.ConfHeader.{define_line, header_print_symbol}
use lightbuild.Kconfig.ConfHeader.Macros.{
  macro_of, header_print_symbol-hex, header_print_symbol-macro_of,
}

hex_1f : sym_string_valid hex (codes "1f") ≡ true
unfolding sym_string_valid hex_valid xdigits_valid all_xdigits isxdigit
hex_1f = refl

header_print_symbol-hex_example :
    (shown : Bytes) × (header_print_symbol hex (codes "BAR") (codes "1f")
      ≡ define_line (codes "BAR") shown)
    × (has_x shown ≡ true)
    × (sym_string_valid hex shown ≡ true)
    × ((strtoll 16 shown).value ≡ (strtoll 16 (codes "1f")).value)
header_print_symbol-hex_example = header_print_symbol-hex (codes "BAR") (codes "1f") hex_1f

header_print_symbol-macro_of_example :
    header_print_symbol tristate (codes "FOO") (sym_get_string_value (table two_symbols) 3)
    ≡ macro_of tri_no (codes "FOO")
header_print_symbol-macro_of_example =
    header_print_symbol-macro_of (table two_symbols) 3 (codes "FOO") two_symbols-IsCalculated
      (inr refl)
