-- ===== src/Kconfig/ConfRead.antt =====
-- conf_read_simple and compat_getline of scripts/kconfig/confdata.c, for the user's configuration
-- (S_DEF_USER) in a file that is open. CONFIG_ is the default prefix. Warnings are counted.
pub mod Lines
pub mod Only
pub mod Written
pub mod Entries
pub mod Roundtrip
pub mod Safe
pub mod Total
mod Tests
use lightbuild.Prelude.{
  ℕ, suc, ◌+◌, Bool, true, false, ◌&&◌, ◌||◌, Option, none, some, List, [], ◌∷◌, Bytes, codes, ◌==◌,
  if◌then◌else◌, first, rest, map, streq,
}
use lightbuild.Kconfig.Tristate.{Tristate, tri_no, tri_mod, tri_yes, tri_eq, expr_or}
use lightbuild.Kconfig.Symbol.{SymbolType, int, hex, string, Sym, Symbol}
use lightbuild.Kconfig.Default.{is_tristate_like}
use lightbuild.Kconfig.ConfValue.{ConfValue, kept, refused, set_tri, set_val, conf_set_sym_val}
use lightbuild.Kconfig.Store.{UserSymbol, Store, update, among}
use lightbuild.Kconfig.Lookup.{SymbolTable, sym_find}

-- compat_getline: the lines of a file with their ends, each up to its first NUL.
abbrev pub add_byte : ℕ → List Bytes → List Bytes
add_byte c [] = (c ∷ []) ∷ []
add_byte c (line ∷ more) = (c ∷ line) ∷ more

unfoldable pub lines_of : Bytes → List Bytes
lines_of [] = []
lines_of (c ∷ cs) = let more = lines_of cs in if c == 10 then (10 ∷ []) ∷ more else add_byte c more

unfoldable pub terminated : Bytes → Bytes
terminated [] = []
terminated (c ∷ cs) = let tail = terminated cs in if c == 0 then [] else c ∷ tail

-- memcmp and strncmp with a string: what follows it. Nothing behind the end of a line matches.
unfoldable pub behind_prefix : Bytes → Bytes → Option Bytes
behind_prefix [] line = some line
behind_prefix (c ∷ cs) [] = none
behind_prefix (c ∷ cs) (d ∷ line) =
    let tail = behind_prefix cs line in if c == d then tail else none

abbrev pub and_before : ℕ → Option (Bytes × Bytes) → Option (Bytes × Bytes)
and_before c none = none
and_before c (some (name, p)) = some (c ∷ name, p)

-- strchr: the text before the first such byte, and behind it.
unfoldable pub strchr : ℕ → Bytes → Option (Bytes × Bytes)
strchr b [] = none
strchr b (c ∷ cs) = let tail = strchr b cs in if c == b then some ([], cs) else and_before c tail

-- A carriage return at the end is dropped.
unfoldable pub without_return : Bytes → Bytes
without_return [] = []
without_return (c ∷ cs) =
    let tail = without_return cs in if c == 13 && streq cs [] then [] else c ∷ tail

pub data LineKind : Type 0 where
  skipped unexpected : LineKind
  unset_symbol : Bytes → LineKind
  set_symbol : Bytes → Bytes → LineKind

abbrev pub value_text : Bytes → Bytes
value_text p = elim (strchr 10 p) [ none ↦ p | some (text, end) ↦ without_return text ]

abbrev pub unset_words : Option (Bytes × Bytes) → LineKind
unset_words none = skipped
unset_words (some (name, p)) = elim (behind_prefix (codes "is not set") p) [
  | none ↦ skipped
  | some end ↦ unset_symbol name
]

abbrev pub comment_text : Option Bytes → LineKind
comment_text none = skipped
comment_text (some p) = unset_words (strchr b' ' p)

abbrev pub set_words : Option (Bytes × Bytes) → LineKind
set_words none = skipped
set_words (some (name, p)) = set_symbol name (value_text p)

abbrev pub plain_text : ℕ → Option Bytes → LineKind
plain_text c none = if c == 13 || c == 10 then skipped else unexpected
plain_text c (some p) = set_words (strchr b'=' p)

unfoldable pub line_kind : Bytes → LineKind
line_kind line =
    if first line == b'#'
    then comment_text (behind_prefix (codes "CONFIG_") (rest (rest line)))
    else plain_text (first line) (behind_prefix (codes "CONFIG_") line)

-- The symbols, and `conf_warnings`.
pub record Reader : Type 0 where
  pub store : Store
  pub warnings : ℕ

abbrev pub conf_warning : Bool → Reader → Reader
conf_warning b r = if b then record r { warnings = suc r.warnings } else r

abbrev pub write_user : Sym → (UserSymbol → UserSymbol) → Reader → Reader
write_user x f r = record r { store = update r.store x f }

abbrev pub sym_add_change_count : Reader → Reader
sym_add_change_count r = record r {
  store = record r.store { sym_change_count = suc r.store.sym_change_count };
}

-- The flags at the start of a reading.
abbrev pub reset_symbol : UserSymbol → UserSymbol
reset_symbol u = record u {
  is_changed = true;
  is_valid = false;
  is_set = u.is_choice;
  def_val = none;
  def_tri = tri_no;
  def_choice = none;
}

abbrev pub is_text : SymbolType → Bool
is_text int = true
is_text hex = true
is_text string = true
is_text _ = false

-- The string at the address is the user value of an INT, HEX or STRING symbol, which is freed.
abbrev pub frees : UserSymbol → ℕ → Bool
frees u address = elim u.def_val [
  | none ↦ false
  | some v ↦ is_text u.curr.type && u.def_at == address
]

abbrev pub is_freed : (Sym → UserSymbol) → List Sym → ℕ → Bool
is_freed get [] address = false
is_freed get (x ∷ xs) address = frees (get x) address || is_freed get xs address

abbrev pub with_curr_val : Bytes → UserSymbol → UserSymbol
with_curr_val val u = record u { curr = record u.curr { val = val } }

-- The loop over the symbols at the start. A calculated value may be a user's string, which sym_calc_value
-- does not copy: what such a pointer reads once the string is freed is `freed`, by its address.
unfoldable pub reset_symbols : (ℕ → Bytes) → Store → Store
reset_symbols freed s = record s {
  get = λ y.
      let u = if among y s.symbols then reset_symbol (s.get y) else s.get y in
      let address = (s.get y).val_at in
      if is_freed s.get s.symbols address then with_curr_val (freed address) u else u;
}

-- The switch on the value of a choice value.
abbrev pub choose : Tristate → Sym → Sym → Reader → Reader
choose tri_no x cs r = r
choose tri_mod x cs r =
    if tri_eq (r.store.get cs).def_tri tri_yes
    then write_user cs (λ c. record c { is_set = false }) (conf_warning true r)
    else r
choose tri_yes x cs r =
    write_user cs (λ c. record c { def_choice = some x })
      (conf_warning (if tri_eq (r.store.get cs).def_tri tri_no then false else true) r)

-- What a value means for the choice of its symbol.
unfoldable pub note_choice : Sym → Reader → Reader
note_choice x r =
    let u = r.store.get x in
    if u.is_choice_value
    then write_user u.choice (λ c. record c { def_tri = expr_or c.def_tri u.def_tri })
        (choose u.def_tri x u.choice r)
    else r

abbrev pub with_tri : Tristate → UserSymbol → UserSymbol
with_tri v u = record u { def_tri = v; is_set = true }

abbrev pub with_val : Bytes → ℕ → UserSymbol → UserSymbol
with_val p address u = record u { def_val = some p; def_at = address; is_set = true }

-- xstrdup.
abbrev pub allocate : Reader → Reader
allocate r = record r { store = record r.store { fresh = suc r.store.fresh } }

-- A symbol that is not set.
unfoldable pub read_unset : Sym → Reader → Reader
read_unset x r =
    let warned = conf_warning (r.store.get x).is_set r in
    note_choice x (
      if is_tristate_like (r.store.get x).curr.type
      then write_user x (with_tri tri_no) warned
      else warned)

-- What follows conf_set_sym_val.
abbrev pub take_value : Sym → ConfValue → Reader → Reader
take_value x refused r = conf_warning true r
take_value x kept r = note_choice x r
take_value x (set_tri v) r = note_choice x (write_user x (with_tri v) r)
take_value x (set_val p) r = note_choice x (write_user x (with_val p r.store.fresh) (allocate r))

abbrev pub take_result : Sym → Option ConfValue → Reader → Option Reader
take_result x none r = none
take_result x (some v) r = some (take_value x v r)

-- `none` means that the fuel of conf_set_sym_val ran out.
unfoldable pub read_set : Sym → Bytes → Reader → Option Reader
read_set x p r =
    take_result x (conf_set_sym_val (r.store.get x).curr.type p)
      (conf_warning (r.store.get x).is_set r)

module _ (symbols : SymbolTable) where
  abbrev pub read_kind : LineKind → Reader → Option Reader
  read_kind skipped r = some r
  read_kind unexpected r = some (conf_warning true r)
  read_kind (unset_symbol name) r = elim (sym_find symbols (some name)) [
    | none ↦ some (sym_add_change_count r)
    | some x ↦ some (read_unset x r)
  ]
  read_kind (set_symbol name p) r = elim (sym_find symbols (some name)) [
    | none ↦ some (sym_add_change_count r)
    | some x ↦ read_set x p r
  ]

  unfoldable pub read_line : Bytes → Reader → Option Reader
  read_line line = read_kind (line_kind line)

  unfoldable pub read_lines : List Bytes → Reader → Option Reader
  read_lines [] r = some r
  read_lines (line ∷ more) r = elim (read_line line r) [
    | none ↦ none
    | some r' ↦ read_lines more r'
  ]

  unfoldable pub conf_read_simple : (ℕ → Bytes) → Bytes → Store → Option Reader
  conf_read_simple freed text s =
      read_lines (map terminated (lines_of text))
        (record { store = reset_symbols freed s; warnings = 0 })
