-- ===== src/Kconfig/ConfValue.antt =====
-- Values in a configuration file: kconfig_print_symbol, conf_write_symbol and conf_set_sym_val of
-- scripts/kconfig/confdata.c. CONFIG_ is the default prefix.
pub mod Roundtrip
use lightbuild.Prelude.{
  ℕ, Bool, true, false, ◌&&◌, ◌||◌, Option, none, some, [], ◌∷◌, ◌++◌, Bytes, codes, ◌==◌,
  if◌then◌else◌, first,
}
use lightbuild.Kconfig.Tristate.{Tristate, tri_no, tri_mod, tri_yes}
use lightbuild.Kconfig.Symbol.{
  SymbolType, unknown, boolean, tristate, int, hex, string, type_eq, Sym, Symbol, Table,
  sym_get_string_value,
}
use lightbuild.Kconfig.StringValid.{sym_string_valid}
use lightbuild.Kconfig.Escape.{
  Reading, ignored, invalid, text, sym_escape_string_value, conf_string,
}

-- What conf_set_sym_val does: nothing, return 1, or set `def.tri` or `def.val` and the flag.
pub data ConfValue : Type 0 where
  kept refused : ConfValue
  set_tri : Tristate → ConfValue
  set_val : Bytes → ConfValue

abbrev pub boolean_text : Bytes → ConfValue
boolean_text p =
    if first p == b'y' then set_tri tri_yes else if first p == b'n' then set_tri tri_no else refused

-- The case S_INT and S_HEX, which S_STRING falls through to.
abbrev pub checked_text : SymbolType → Bytes → ConfValue
checked_text type p = if sym_string_valid type p then set_val p else refused

abbrev pub read_text : Option Reading → Option ConfValue
read_text none = none
read_text (some ignored) = some kept
read_text (some invalid) = some refused
read_text (some (text p)) = some (checked_text string p)

unfoldable pub conf_set_sym_val : SymbolType → Bytes → Option ConfValue
conf_set_sym_val tristate p = some (if first p == b'm' then set_tri tri_mod else boolean_text p)
conf_set_sym_val boolean p = some (boolean_text p)
conf_set_sym_val string p = read_text (conf_string p)
conf_set_sym_val int p = some (checked_text int p)
conf_set_sym_val hex p = some (checked_text hex p)
conf_set_sym_val unknown p = some kept

abbrev pub set_line : Bytes → Bytes → Bytes
set_line name value = codes "CONFIG_" ++ (name ++ (b'=' ∷ (value ++ (10 ∷ []))))

abbrev pub unset_line : Bytes → Bytes
unset_line name = codes "# CONFIG_" ++ (name ++ codes " is not set\n")

unfoldable pub kconfig_print_symbol : SymbolType → Bytes → Bytes → Bool → Bytes
kconfig_print_symbol type name value skip_unset =
    if (type_eq type boolean || type_eq type tristate) && first value == b'n'
    then if skip_unset then [] else unset_line name
    else set_line name value

-- The string that conf_write_symbol hands to its printer.
unfoldable pub written_value : Table → Sym → Option Bytes
written_value t s =
    if type_eq (t.get s).type string
    then sym_escape_string_value (sym_get_string_value t s)
    else some (sym_get_string_value t s)

abbrev pub printed : SymbolType → Bytes → Bool → Option Bytes → Option Bytes
printed type name skip_unset none = none
printed type name skip_unset (some value) = some (kconfig_print_symbol type name value skip_unset)

-- conf_write_symbol with kconfig_printer_cb.
unfoldable pub conf_write_symbol : Table → Sym → Bytes → Bool → Option Bytes
conf_write_symbol t s name skip_unset =
    if type_eq (t.get s).type unknown
    then some []
    else printed (t.get s).type name skip_unset (written_value t s)
