-- ===== src/Kconfig/ConfValue/Roundtrip.antt =====
-- What conf_write_symbol of scripts/kconfig/confdata.c writes, conf_set_sym_val reads back.
use mathlib.Core.List.{append-nil}
use lightbuild.Prelude.{
  ◌≡◌, ◌≢◌, refl, sym, ap, ◌∙◌, true, false, ◌&&◌, ◌||◌, some, [], Bytes, ◌==◌, if◌then◌else◌,
  first, inl, inr, ◌⊎◌,
}
use lightbuild.Kconfig.Tristate.{Tristate, tri_no, tri_mod, tri_yes}
use lightbuild.Kconfig.Symbol.{
  SymbolType, unknown, boolean, tristate, int, hex, string, type_eq, Sym, Symbol, Table,
  IsCalculated, IsTristateLike, letter, sym_get_string_value, string-letter,
}
use lightbuild.Kconfig.StringValid.{sym_string_valid}
use lightbuild.Kconfig.Escape.{conf_string}
use lightbuild.Kconfig.Escape.Roundtrip.{conf_string-escape}
use lightbuild.Kconfig.ConfValue.{
  ConfValue, set_tri, set_val, conf_set_sym_val, set_line, unset_line, kconfig_print_symbol,
  written_value, conf_write_symbol,
}

-- A symbol's value as conf_set_sym_val sets it.
abbrev pub value_of : SymbolType → Symbol → ConfValue
value_of boolean u = set_tri u.tri
value_of tristate u = set_tri u.tri
value_of _ u = set_val u.val

abbrev IsText : SymbolType → Type 0
IsText type = (type ≡ int) ⊎ (type ≡ hex)

-- The written form of a value, its line and what is read of it.
abbrev pub ReadsBack : Table → Sym → Bytes → Type 0
ReadsBack t s name =
    (w : Bytes) × (written_value t s ≡ some w)
    × (conf_write_symbol t s name false
        ≡ some (
            if (type_eq (t.get s).type boolean || type_eq (t.get s).type tristate)
              && first w == b'n'
            then unset_line name
            else set_line name w))
    × (conf_set_sym_val (t.get s).type w ≡ some (value_of (t.get s).type (t.get s)))

letter-boolean :
    (v : Tristate) → v ≢ tri_mod → conf_set_sym_val boolean (letter v) ≡ some (set_tri v)
unfolding conf_set_sym_val
letter-boolean tri_no h = refl
letter-boolean tri_mod h = absurd (h refl)
letter-boolean tri_yes h = refl

letter-tristate : (v : Tristate) → conf_set_sym_val tristate (letter v) ≡ some (set_tri v)
unfolding conf_set_sym_val
letter-tristate tri_no = refl
letter-tristate tri_mod = refl
letter-tristate tri_yes = refl

write_lem :
    (t : Table) (s : Sym) (name w : Bytes)
    → type_eq (t.get s).type unknown ≡ false
    → written_value t s ≡ some w
    → conf_write_symbol t s name false
      ≡ some (
          if (type_eq (t.get s).type boolean || type_eq (t.get s).type tristate) && first w == b'n'
          then unset_line name
          else set_line name w)
unfolding conf_write_symbol kconfig_print_symbol
write_lem t s name w known e = rw (known, conf_write_symbol) (rw e refl)

tristate_back :
    (t : Table) (s : Sym) (name : Bytes)
    → IsCalculated t
    → IsTristateLike (t.get s).type
    → ReadsBack t s name
unfolding written_value
tristate_back t s name c type = (
  letter (t.get s).tri,
  writes type ∙ ap some (string-letter t s c type),
  write_lem t s name (letter (t.get s).tri) (known type)
      (writes type ∙ ap some (string-letter t s c type)),
  reads type,
)
  where
    known : IsTristateLike (t.get s).type → type_eq (t.get s).type unknown ≡ false
    known (inl h) = rw h refl
    known (inr h) = rw h refl

    writes : IsTristateLike (t.get s).type → written_value t s ≡ some (sym_get_string_value t s)
    writes (inl h) = rw (h, written_value) refl
    writes (inr h) = rw (h, written_value) refl

    reads :
        IsTristateLike (t.get s).type
        → conf_set_sym_val (t.get s).type (letter (t.get s).tri)
          ≡ some (value_of (t.get s).type (t.get s))
    reads (inl h) = rw h (letter-boolean (t.get s).tri (c.boolean_mod s h))
    reads (inr h) = rw h (letter-tristate (t.get s).tri)

number_back :
    (t : Table) (s : Sym) (name : Bytes)
    → IsText (t.get s).type
    → sym_string_valid (t.get s).type (t.get s).val ≡ true
    → ReadsBack t s name
unfolding written_value sym_get_string_value conf_set_sym_val
number_back t s name type valid = (
  (t.get s).val,
  writes type,
  write_lem t s name (t.get s).val (known type) (writes type),
  reads type,
)
  where
    known : IsText (t.get s).type → type_eq (t.get s).type unknown ≡ false
    known (inl h) = rw h refl
    known (inr h) = rw h refl

    writes : IsText (t.get s).type → written_value t s ≡ some (t.get s).val
    writes (inl h) = rw (h, written_value, sym_get_string_value) refl
    writes (inr h) = rw (h, written_value, sym_get_string_value) refl

    reads :
        IsText (t.get s).type
        → conf_set_sym_val (t.get s).type (t.get s).val ≡ some (value_of (t.get s).type (t.get s))
    reads (inl h) = rw h (rw (sym (ap (λ y. sym_string_valid y (t.get s).val) h) ∙ valid) refl)
    reads (inr h) = rw h (rw (sym (ap (λ y. sym_string_valid y (t.get s).val) h) ∙ valid) refl)

string_back : (t : Table) (s : Sym) (name : Bytes) → (t.get s).type ≡ string → ReadsBack t s name
unfolding written_value sym_get_string_value conf_set_sym_val sym_string_valid
string_back t s name h =
    let (w, escapes, size, reads) = conf_string-escape (t.get s).val [] in
    (
      w,
      (rw (h, written_value, sym_get_string_value) escapes),
      write_lem t s name w (rw h refl) (rw (h, written_value, sym_get_string_value) escapes),
      rw h (rw (sym (ap conf_string (append-nil w)) ∙ reads) refl),
    )

-- A calculated symbol of a known type, with a valid number where it is INT or HEX, is written as
-- CONFIG_, its name, `=` and a value that conf_set_sym_val reads back as the symbol's own, strings
-- with quotes and backslashes included. Only for a BOOLEAN or TRISTATE symbol that is `n` the line
-- says instead that it is not set.
pub conf_set_sym_val-conf_write_symbol :
    (t : Table) (s : Sym) (name : Bytes)
    → IsCalculated t
    → (t.get s).type ≢ unknown
    → (((t.get s).type ≡ int) ⊎ ((t.get s).type ≡ hex)
        → sym_string_valid (t.get s).type (t.get s).val ≡ true)
    → ReadsBack t s name
conf_set_sym_val-conf_write_symbol t s name c known valid = by (t.get s).type refl
  where
    by : (type : SymbolType) → (t.get s).type ≡ type → ReadsBack t s name
    by unknown h = absurd (known h)
    by boolean h = tristate_back t s name c (inl h)
    by tristate h = tristate_back t s name c (inr h)
    by int h = number_back t s name (inl h) (valid (inl h))
    by hex h = number_back t s name (inr h) (valid (inr h))
    by string h = string_back t s name h
