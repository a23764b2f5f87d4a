-- ===== src/Kconfig/Tests.antt =====
-- Concrete runs of scripts/kconfig/symbol.c: strings, the table of symbols and user values.
use lightbuild.Prelude.{
  zero, ◌||◌, ◌≤◌, ◌⊎◌, suc, ◌≡◌, ◌≢◌, refl, true, false, none, some, [], ◌∷◌, ◌++◌, Bytes, codes,
  first, ap, arith, length, inl, inr,
}
use lightbuild.Kconfig.Samples.{two_symbols, two_symbols-IsIdle}
use lightbuild.Kconfig.Calc.Total.{sym_calc_value}
use lightbuild.Kconfig.Calc.Setters.{sym_calc_value-KeepsStrings, sym_calc_value-KeepsValues}
use lightbuild.Kconfig.Tristate.{Tristate, tri_no, tri_mod, tri_yes, rank, tri_eq, expr_or}
use lightbuild.Kconfig.Symbol.{
  IsCalculated, constant_symbol, symbol_of, string, Symbol, Table, letter, boolean, tristate, int,
  hex, Sym,
}
use lightbuild.Kconfig.ConfValue.Roundtrip.{ReadsBack, conf_set_sym_val-conf_write_symbol}
use lightbuild.Kconfig.Strto.{strtoll}
use lightbuild.Kconfig.StringValid.{sym_string_valid}
use lightbuild.Kconfig.StringValid.Number.{has_x, strtoll-sym_string_valid}
use lightbuild.Kconfig.Escape.{sym_escape_string_value, escape_size, conf_string, text}
use lightbuild.Kconfig.Escape.Roundtrip.{conf_string-escape}
use lightbuild.Kconfig.Lookup.{
  SymbolTable, sym_lookup, sym_find, first_wanted, bucket, symbol_const,
}
use lightbuild.Kconfig.Lookup.Laws.{sym_lookup-sym_lookup, sym_find-sym_lookup_other}
use lightbuild.Kconfig.Assign.{
  sym_tristate_within_range, assign_tristate, sym_set_tristate_value, sym_toggle_tristate_value,
}
use lightbuild.Kconfig.Assign.Choice.{Assigned, sym_set_tristate_value_sound}
use lightbuild.Kconfig.Default.{
  DefaultSymbol, sym_get_string_default, adjusted, at_least, without_mod, without_modules,
  default_val, sym_get_default_prop,
}
use lightbuild.Kconfig.Default.Bounds.{own_default, sym_get_string_default_sound}
use lightbuild.Kconfig.Assign.Toggle.{next_allowed, sym_toggle_tristate_value_sound}
use lightbuild.Kconfig.Assign.Strings.{sym_string_within_range, sym_set_string_value}
use lightbuild.Kconfig.Assign.Strings.Stored.{stored, sym_set_string_value_sound}

strtoll-sym_string_valid_example :
    (sym_string_valid int (codes "-12") ≡ true → (strtoll 10 (codes "-12")).tail ≡ [])
    × (sym_string_valid hex (codes "-12") ≡ true → (strtoll 16 (codes "-12")).tail ≡ [])
strtoll-sym_string_valid_example = strtoll-sym_string_valid (codes "-12")

abbrev quoted_text : Bytes
quoted_text = codes "a\\b\"c"

conf_string-escape_example :
    (res : Bytes) × (sym_escape_string_value quoted_text ≡ some res)
    × (escape_size quoted_text ≡ some (suc (length res)))
    × (conf_string (res ++ codes "\n") ≡ some (text quoted_text))
conf_string-escape_example = conf_string-escape quoted_text (codes "\n")

abbrev no_symbols : SymbolTable
no_symbols = record { symbol_hash = λ h. []; fresh = 3 }

sym_lookup-sym_lookup_example :
    sym_lookup
      (sym_lookup no_symbols (some (codes "FOO")) symbol_const).table
      (some (codes "FOO"))
      symbol_const
    ≡ sym_lookup no_symbols (some (codes "FOO")) symbol_const
sym_lookup-sym_lookup_example =
    sym_lookup-sym_lookup no_symbols (codes "FOO") symbol_const (inr (inl refl))

foo_is_not_bar : codes "FOO" ≢ codes "BAR"
foo_is_not_bar e = absurd (omega (arith, ap first e))

sym_find-sym_lookup_other_example :
    (first_wanted
        (codes "BAR")
        0
        ((sym_lookup no_symbols (some (codes "FOO")) 0).table.symbol_hash (bucket (codes "BAR")))
      ≡ first_wanted (codes "BAR") 0 (no_symbols.symbol_hash (bucket (codes "BAR"))))
    × (sym_find (sym_lookup no_symbols (some (codes "FOO")) 0).table (some (codes "BAR"))
        ≡ sym_find no_symbols (some (codes "BAR")))
sym_find-sym_lookup_other_example =
    sym_find-sym_lookup_other no_symbols (codes "FOO") (codes "BAR") 0 0 foo_is_not_bar

sym_toggle_tristate_value_sound_example :
    sym_toggle_tristate_value sym_calc_value two_symbols 3
    ≡ some (
      next_allowed (sym_tristate_within_range two_symbols 3) tri_no,
      assign_tristate sym_calc_value 3
          (next_allowed (sym_tristate_within_range two_symbols 3) tri_no)
          two_symbols,
    )
sym_toggle_tristate_value_sound_example =
    sym_toggle_tristate_value_sound sym_calc_value two_symbols 3

sym_set_string_value_sound_example :
    (sym_string_within_range two_symbols 4 (codes "1f") ≡ false
      → sym_set_string_value sym_calc_value two_symbols 4 (codes "1f")
        ≡ record { ok = false; store = two_symbols })
    × (sym_string_within_range two_symbols 4 (codes "1f") ≡ true
        → ((sym_set_string_value sym_calc_value two_symbols 4 (codes "1f")).ok ≡ true)
          × (((sym_set_string_value sym_calc_value two_symbols 4 (codes "1f")).store.get 4).def_val
              ≡ some (stored hex (codes "1f")))
          × (sym_string_valid hex (stored hex (codes "1f")) ≡ true)
          × (hex ≡ hex
              → (strtoll 16 (stored hex (codes "1f"))).value ≡ (strtoll 16 (codes "1f")).value)
          × (hex ≡ hex → has_x (stored hex (codes "1f")) ≡ true))
sym_set_string_value_sound_example =
    sym_set_string_value_sound sym_calc_value two_symbols 4 (codes "1f") sym_calc_value-KeepsStrings
      two_symbols-IsIdle (inr (inl refl))

sym_set_tristate_value_sound_example :
    ((sym_set_tristate_value sym_calc_value two_symbols 3 tri_mod).ok
      ≡ (tri_eq tri_no tri_mod || sym_tristate_within_range two_symbols 3 tri_mod))
    × ((sym_set_tristate_value sym_calc_value two_symbols 3 tri_mod).ok ≡ false
        → (sym_set_tristate_value sym_calc_value two_symbols 3 tri_mod).store ≡ two_symbols)
    × ((sym_set_tristate_value sym_calc_value two_symbols 3 tri_mod).ok ≡ true
        → Assigned two_symbols 3 tri_mod
            (sym_set_tristate_value sym_calc_value two_symbols 3 tri_mod).store)
sym_set_tristate_value_sound_example =
    sym_set_tristate_value_sound sym_calc_value two_symbols 3 tri_mod sym_calc_value-KeepsValues
      two_symbols-IsIdle

-- Every symbol is `n`.
abbrev all_no : Table
all_no = record {
  get = λ y. record { name = none; type = tristate; val = []; tri = tri_no; is_const = false };
  modules_sym = 5;
}

-- A BOOLEAN symbol that is only implied by `m`.
abbrev implied_bool : DefaultSymbol
implied_bool = record {
  type = boolean;
  rev_dep = tri_no;
  implied = tri_mod;
  is_choice_value = false;
  defaults = [];
}

implied_bool_is_mod : sym_get_string_default all_no implied_bool ≡ b'm' ∷ []
unfolding sym_get_string_default adjusted at_least without_mod without_modules expr_or default_val
    sym_get_default_prop
implied_bool_is_mod = refl

sym_get_string_default_sound_example :
    (v : Tristate) × (sym_get_string_default all_no implied_bool ≡ letter v)
    × (rank tri_no ≤ rank v)
    × (rank tri_mod ≤ rank v)
    × (rank (own_default all_no implied_bool) ≤ rank v)
    × (v ≡ tri_mod
        → ((boolean ≡ boolean) ⊎ ((false ≡ false) × (tri_no ≡ tri_no)))
        → (tri_mod ≡ tri_mod) × (tri_no ≡ tri_no) × (own_default all_no implied_bool ≡ tri_no))
sym_get_string_default_sound_example = sym_get_string_default_sound all_no implied_bool (inl refl)

-- The constant symbols, and STRING symbols that hold a quoted text.
abbrev text_get : Sym → Symbol
text_get zero = constant_symbol tri_no
text_get (suc zero) = constant_symbol tri_mod
text_get (suc (suc zero)) = constant_symbol tri_yes
text_get (suc (suc (suc s))) = record {
  name = none;
  type = string;
  val = quoted_text;
  tri = tri_no;
  is_const = false;
}

text_constants : (u : Tristate) → text_get (symbol_of u) ≡ constant_symbol u
text_constants tri_no = refl
text_constants tri_mod = refl
text_constants tri_yes = refl

text_no_type : (s : Sym) → ((text_get s).type ≢ boolean) × ((text_get s).type ≢ tristate)
text_no_type zero = (λ e. cc, λ e. cc)
text_no_type (suc zero) = (λ e. cc, λ e. cc)
text_no_type (suc (suc zero)) = (λ e. cc, λ e. cc)
text_no_type (suc (suc (suc s))) = (λ e. cc, λ e. cc)

abbrev text_table : Table
text_table = record { get = text_get; modules_sym = 5 }

text_table-IsCalculated : IsCalculated text_table
text_table-IsCalculated = record {
  constants = text_constants;
  boolean_mod = λ s h. absurd ((text_no_type s).0 h);
  modules_off = λ s h off. absurd ((text_no_type s).1 h);
}

conf_set_sym_val-conf_write_symbol_example : ReadsBack text_table 3 (codes "FOO")
conf_set_sym_val-conf_write_symbol_example =
    conf_set_sym_val-conf_write_symbol text_table 3 (codes "FOO") text_table-IsCalculated (λ e. cc)
      (λ h. elim h [ inl e ↦ absurd (cc) | inr e ↦ absurd (cc) ])
