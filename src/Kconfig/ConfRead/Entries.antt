-- ===== src/Kconfig/ConfRead/Entries.antt =====
-- Lists of symbols that are written to a configuration, and what holds of the symbols that are read
-- (scripts/kconfig/confdata.c).
use lightbuild.Prelude.{
  ◌≡◌, ◌≢◌, ◌∙◌, true, false, Option, none, some, List, [], ◌∷◌, ◌++◌, Bytes, ◌⊎◌,
}
use lightbuild.Kconfig.Symbol.{unknown, int, hex, Sym, Table}
use lightbuild.Kconfig.StringValid.{sym_string_valid}
use lightbuild.Kconfig.Store.{UserSymbol, Store, table}
use lightbuild.Kconfig.Lookup.{SymbolTable, sym_find}
use lightbuild.Kconfig.ConfValue.{
  ConfValue, kept, refused, set_tri, set_val, written_value, conf_write_symbol,
}
use lightbuild.Kconfig.ConfValue.Roundtrip.{value_of}
use lightbuild.Kconfig.ConfRead.Lines.{IsName, IsValue}
use lightbuild.Kconfig.ConfRead.Only.{SameDef}
use lightbuild.Kconfig.ConfRead.Written.{IsUserValue}

-- Symbols with their names.
abbrev pub Entries : Type 0
Entries = List (Sym × Bytes)

abbrev pub joined_text : Option Bytes → Option Bytes → Option Bytes
joined_text none text = none
joined_text (some line) none = none
joined_text (some line) (some text) = some (line ++ text)

-- The lines of symbols, one behind the other.
unfoldable pub write_symbols : Table → Entries → Option Bytes
write_symbols t [] = some []
write_symbols t ((x, name) ∷ more) =
    joined_text (conf_write_symbol t x name false) (write_symbols t more)

-- A symbol that can be written and found again: its name has no byte that ends a name, its type is known,
-- its value is on one line and, for a number, valid.
pub record IsEntry (symbols : SymbolTable) (s : Store) (x : Sym) (name : Bytes) : Type 0 where
  pub found : sym_find symbols (some name) ≡ some x
  pub is_name : IsName name
  pub known : (s.get x).curr.type ≢ unknown
  pub valid :
      ((s.get x).curr.type ≡ int) ⊎ ((s.get x).curr.type ≡ hex)
      → sym_string_valid (s.get x).curr.type (s.get x).curr.val ≡ true
  pub one_line : (w : Bytes) → written_value (table s) x ≡ some w → IsValue w

-- None of the symbols is this one or has it for its choice.
unfoldable pub IsApart : Store → Sym → Entries → Type 0
IsApart s x [] = Unit {0}
IsApart s x ((y, name) ∷ more) = (x ≢ y) × (x ≢ (s.get y).choice) × IsApart s x more

unfoldable pub AreEntries : SymbolTable → Store → Store → Entries → Type 0
AreEntries symbols s r [] = Unit {0}
AreEntries symbols s r ((x, name) ∷ more) =
    IsEntry symbols s x name
    × (x ≢ (r.get x).choice)
    × IsApart r x more
    × AreEntries symbols s r more

-- The user values of the symbols are the values of `s`.
abbrev pub HasValue : Store → Store → Sym → Type 0
HasValue s t x =
    ((t.get x).is_set ≡ true) × IsUserValue (value_of (s.get x).curr.type (s.get x).curr) (t.get x)

unfoldable pub HaveValues : Store → Store → Entries → Type 0
HaveValues s t [] = Unit {0}
HaveValues s t ((x, name) ∷ more) = HasValue s t x × HaveValues s t more

pub IsApart-same :
    (r t : Store) (x : Sym)
    → ((y : Sym) → (t.get y).choice ≡ (r.get y).choice)
    → (entries : Entries) → IsApart r x entries
    → IsApart t x entries
unfolding IsApart
IsApart-same r t x same [] h = h
IsApart-same r t x same ((y, name) ∷ more) (a, b, c) =
    (a, rw (same y) b, IsApart-same r t x same more c)

pub AreEntries-same :
    (symbols : SymbolTable) (s r t : Store)
    → ((y : Sym) → (t.get y).choice ≡ (r.get y).choice)
    → (entries : Entries) → AreEntries symbols s r entries
    → AreEntries symbols s t entries
unfolding AreEntries
AreEntries-same symbols s r t same [] h = h
AreEntries-same symbols s r t same ((x, name) ∷ more) (e, a, b, c) =
    (e, rw (same x) a, IsApart-same r t x same more b, AreEntries-same symbols s r t same more c)

pub IsUserValue-same :
    (v : ConfValue) (u w : UserSymbol) → SameDef u w → IsUserValue v u → IsUserValue v w
IsUserValue-same kept u w (a, b, c, d) h = h
IsUserValue-same refused u w (a, b, c, d) h = h
IsUserValue-same (set_tri v) u w (a, b, c, d) h = a ∙ h
IsUserValue-same (set_val p) u w (a, b, c, d) h = b ∙ h

pub HasValue-same :
    (s r t : Store) (y : Sym) → SameDef (r.get y) (t.get y) → HasValue s r y → HasValue s t y
HasValue-same s r t y (a, b, c, d) (set, val) = (
  c ∙ set,
  IsUserValue-same (value_of (s.get y).curr.type (s.get y).curr) (r.get y) (t.get y) (a, b, c, d)
      val,
)
