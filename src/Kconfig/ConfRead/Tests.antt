-- ===== src/Kconfig/ConfRead/Tests.antt =====
-- A configuration of two symbols, written and read back.
use lightbuild.Prelude.{
  ℕ, ◌≡◌, refl, subst, some, [], ◌∷◌, Bytes, codes, strcmp, isxdigit, inl, inr, arith,
}
use lightbuild.Kconfig.Symbol.{Sym, sym_get_string_value}
use lightbuild.Kconfig.StringValid.{sym_string_valid, hex_valid, xdigits_valid, all_xdigits}
use lightbuild.Kconfig.Store.{table}
use lightbuild.Kconfig.Lookup.{sym_find}
use lightbuild.Kconfig.ConfValue.{written_value}
use lightbuild.Kconfig.Samples.{two_names, two_symbols, two_symbols-IsCalculated}
use lightbuild.Kconfig.ConfRead.{Reader, line_kind, read_line, conf_read_simple}
use lightbuild.Kconfig.ConfRead.Only.{FixedUnless, is_gone, Only}
use lightbuild.Kconfig.ConfRead.Safe.{may_change}
use lightbuild.Kconfig.ConfRead.Total.{read_line-Only, conf_read_simple-total}
use lightbuild.Kconfig.ConfRead.Lines.{IsValue}
use lightbuild.Kconfig.ConfRead.Roundtrip.{conf_read_simple-write_symbols}
use lightbuild.Kconfig.ConfRead.Entries.{
  Entries, write_symbols, IsEntry, IsApart, AreEntries, HaveValues,
}

-- What a freed string reads as.
abbrev freed_text : ℕ → Bytes
freed_text address = codes "?"

abbrev two_entries : Entries
two_entries = (3, codes "FOO") ∷ (4, codes "BAR") ∷ []

some_bytes : (v w : Bytes) → some v ≡ some w → v ≡ w
some_bytes v w h = cc

foo-IsEntry : IsEntry two_names two_symbols 3 (codes "FOO")
unfolding sym_find written_value sym_get_string_value strcmp
foo-IsEntry = record {
  found = refl;
  is_name = record { no_nul = refl; no_end = refl; no_space = refl; no_equals = refl };
  known = λ h. cc;
  valid = λ h. absurd (elim h [ inl e ↦ cc | inr e ↦ cc ]);
  one_line = λ w h.
      subst IsValue (some_bytes (codes "n") w h)
        record { no_nul = refl; no_end = refl; no_return = refl };
}

bar-IsEntry : IsEntry two_names two_symbols 4 (codes "BAR")
unfolding sym_find written_value sym_get_string_value sym_string_valid strcmp hex_valid
    xdigits_valid isxdigit all_xdigits
bar-IsEntry = record {
  found = refl;
  is_name = record { no_nul = refl; no_end = refl; no_space = refl; no_equals = refl };
  known = λ h. cc;
  valid = λ h. refl;
  one_line = λ w h.
      subst IsValue (some_bytes (codes "0x0") w h)
        record { no_nul = refl; no_end = refl; no_return = refl };
}

two_entries-AreEntries : AreEntries two_names two_symbols two_symbols two_entries
unfolding AreEntries IsApart
two_entries-AreEntries = (
  foo-IsEntry,
  λ e. omega (arith, e),
  (λ e. omega (arith, e), λ e. omega (arith, e), tt),
  (bar-IsEntry, λ e. omega (arith, e), tt, tt),
)

conf_read_simple-write_symbols_example :
    (text : Bytes) × (write_symbols (table two_symbols) two_entries ≡ some text)
    × (r' : Reader) × (conf_read_simple two_names freed_text text two_symbols ≡ some r')
    × HaveValues two_symbols r'.store two_entries
conf_read_simple-write_symbols_example =
    conf_read_simple-write_symbols two_names two_symbols two_symbols-IsCalculated freed_text
      two_entries two_symbols two_entries-AreEntries (λ y. refl)

-- A line that is no value of the symbol, in a text that ends without a newline.
abbrev odd_line : Bytes
odd_line = codes "CONFIG_FOO=maybe"

read_line-Only_example :
    (r' : Reader) × (read_line two_names odd_line (record { store = two_symbols; warnings = 0 })
      ≡ some r')
    × Only (may_change two_names (line_kind odd_line) two_symbols) two_symbols r'.store
read_line-Only_example =
    read_line-Only two_names odd_line (record { store = two_symbols; warnings = 0 })

conf_read_simple-total_example :
    (r' : Reader) × (conf_read_simple two_names freed_text odd_line two_symbols ≡ some r')
    × ((y : Sym) → FixedUnless (is_gone two_symbols y) (two_symbols.get y) (r'.store.get y))
conf_read_simple-total_example = conf_read_simple-total two_names freed_text odd_line two_symbols
