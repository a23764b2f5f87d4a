-- ===== src/Kconfig/Symbol.antt =====
-- `struct symbol` of scripts/kconfig/expr.h, as far as expressions read it, and the three constant
-- symbols of symbol.c. A pointer to a symbol is a number; two pointers are equal as numbers are.
use lightbuild.Prelude.{
  ℕ, ◌≡◌, ◌≢◌, refl, Bool, true, false, Option, some, Bytes, arith, [], ◌∷◌, if◌then◌else◌, ◌⊎◌,
}
use lightbuild.Kconfig.Tristate.{Tristate, tri_no, tri_mod, tri_yes, tri_eq}

pub data SymbolType : Type 0 where
  unknown boolean tristate int hex string : SymbolType

abbrev pub type_eq : SymbolType → SymbolType → Bool
type_eq unknown unknown = true
type_eq boolean boolean = true
type_eq tristate tristate = true
type_eq int int = true
type_eq hex hex = true
type_eq string string = true
type_eq _ _ = false

-- `curr.val` (a string, where the symbol is no choice), `curr.tri` and the flag SYMBOL_CONST.
pub record Symbol : Type 0 where
  pub name : Option Bytes
  pub type : SymbolType
  pub val : Bytes
  pub tri : Tristate
  pub is_const : Bool

abbrev pub Sym : Type 0
Sym = ℕ

abbrev pub symbol_no : Sym
symbol_no = 0

abbrev pub symbol_mod : Sym
symbol_mod = 1

abbrev pub symbol_yes : Sym
symbol_yes = 2

-- The constant symbol of a tristate value.
abbrev pub symbol_of : Tristate → Sym
symbol_of tri_no = symbol_no
symbol_of tri_mod = symbol_mod
symbol_of tri_yes = symbol_yes

-- "n", "m" and "y".
abbrev pub letter : Tristate → Bytes
letter tri_no = b'n' ∷ []
letter tri_mod = b'm' ∷ []
letter tri_yes = b'y' ∷ []

-- The static initialisers of symbol_yes, symbol_mod and symbol_no.
abbrev pub constant_symbol : Tristate → Symbol
constant_symbol v = record {
  name = some (letter v);
  type = unknown;
  val = letter v;
  tri = v;
  is_const = true;
}

-- The symbols, and `modules_sym`.
pub record Table : Type 0 where
  pub get : Sym → Symbol
  pub modules_sym : Sym

-- The string of a BOOLEAN or TRISTATE symbol, by its value and that of `modules_sym`.
abbrev pub tristate_string : Tristate → Tristate → Bytes
tristate_string tri_mod modules = if tri_eq modules tri_no then letter tri_no else letter tri_mod
tristate_string v modules = letter v

abbrev pub string_of : SymbolType → Symbol → Tristate → Bytes
string_of boolean s modules = tristate_string s.tri modules
string_of tristate s modules = tristate_string s.tri modules
string_of _ s modules = s.val

-- sym_get_string_value, where every symbol that it reads has been calculated.
unfoldable pub sym_get_string_value : Table → Sym → Bytes
sym_get_string_value t s = string_of (t.get s).type (t.get s) (t.get t.modules_sym).tri

abbrev pub IsTristateLike : SymbolType → Type 0
IsTristateLike ty = (ty ≡ boolean) ⊎ (ty ≡ tristate)

-- What sym_calc_value leaves behind: the constants are as declared, no BOOLEAN symbol is `m`, and
-- no TRISTATE symbol is `m` while modules are off.
pub record IsCalculated (t : Table) : Type 0 where
  pub constants : (v : Tristate) → t.get (symbol_of v) ≡ constant_symbol v
  pub boolean_mod : (s : Sym) → (t.get s).type ≡ boolean → (t.get s).tri ≢ tri_mod
  pub modules_off :
      (s : Sym)
      → (t.get s).type ≡ tristate
      → (t.get t.modules_sym).tri ≡ tri_no
      → (t.get s).tri ≢ tri_mod

-- So the string of a BOOLEAN or TRISTATE symbol is its value's letter.
pub string-letter :
    (t : Table) (s : Sym)
    → IsCalculated t
    → IsTristateLike (t.get s).type
    → sym_get_string_value t s ≡ letter (t.get s).tri
unfolding sym_get_string_value
string-letter t s c h = ground (arith, c.boolean_mod s, c.modules_off s)

pub string-constant :
    (t : Table) (v : Tristate) → IsCalculated t → sym_get_string_value t (symbol_of v) ≡ letter v
unfolding sym_get_string_value
string-constant t v c = rw (c.constants v) refl
