-- ===== src/Kconfig/ConfRead/Roundtrip.antt =====
-- Reading with conf_read_simple what conf_write_symbol of scripts/kconfig/confdata.c has written.
use lightbuild.Prelude.{
  ℕ, ◌≡◌, ◌≢◌, refl, sym, ap, ◌∙◌, subst, Bool, true, false, ◌&&◌, Option, some, [], ◌∷◌, ◌++◌,
  Bytes, ◌==◌, if◌then◌else◌, arith, first, map,
}
use lightbuild.Kconfig.Symbol.{Sym, IsCalculated}
use lightbuild.Kconfig.Default.{is_tristate_like}
use lightbuild.Kconfig.Store.{Store, table}
use lightbuild.Kconfig.Lookup.{SymbolTable}
use lightbuild.Kconfig.ConfValue.{
  conf_set_sym_val, set_line, unset_line, written_value, conf_write_symbol,
}
use lightbuild.Kconfig.ConfValue.Roundtrip.{value_of, conf_set_sym_val-conf_write_symbol}
use lightbuild.Kconfig.ConfRead.{
  Reader, reset_symbols, read_line, read_lines, lines_of, terminated, conf_read_simple,
}
use lightbuild.Kconfig.ConfRead.Lines.{
  ends_once, lines_of-append, set_line-ends_once, unset_line-ends_once, terminated-set_line,
  terminated-unset_line,
}
use lightbuild.Kconfig.ConfRead.Only.{reset_symbols-FixedUnless}
use lightbuild.Kconfig.ConfRead.Written.{
  ReadInto, unset_value, set_line-ReadInto, unset_line-ReadInto,
}
use lightbuild.Kconfig.ConfRead.Entries.{
  Entries, write_symbols, IsEntry, IsApart, AreEntries, HasValue, HaveValues, IsApart-same,
  AreEntries-same, HasValue-same,
}

-- A line on its own that is read into the symbol's value.
abbrev IsLine : SymbolTable → Store → Reader → Sym → Bytes → Bytes → Type 0
IsLine symbols s r x name line =
    (conf_write_symbol (table s) x name false ≡ some line)
    × (ends_once line ≡ true)
    × (terminated line ≡ line)
    × ((r' : Reader) × (read_line symbols line r ≡ some r')
        × ReadInto x (value_of (s.get x).curr.type (s.get x).curr) r.store r'.store)

read_text :
    (symbols : SymbolTable) (line text : Bytes) (r q : Reader) (result : Option Reader)
    → ends_once line ≡ true
    → terminated line ≡ line
    → read_line symbols line r ≡ some q
    → read_lines symbols (map terminated (lines_of text)) q ≡ result
    → read_lines symbols (map terminated (lines_of (line ++ text))) r ≡ result
unfolding read_lines
read_text symbols line text r q result once whole runs h =
    rw (lines_of-append line text once) (rw whole (rw (runs, read_lines) h))

module _ (symbols : SymbolTable) (s : Store) (calculated : IsCalculated (table s)) where
  entry-IsLine :
      (r : Reader) (x : Sym) (name : Bytes)
      → IsEntry symbols s x name
      → x ≢ (r.store.get x).choice
      → (r.store.get x).curr.type ≡ (s.get x).curr.type
      → (line : Bytes) × IsLine symbols s r x name line
  entry-IsLine r x name e apart same =
      let (w, written, line, reads) =
        conf_set_sym_val-conf_write_symbol (table s) x name calculated e.known e.valid in
      by w written line reads (is_tristate_like (s.get x).curr.type) (first w == b'n') refl refl
    where
      set :
          (w : Bytes)
          → written_value (table s) x ≡ some w
          → conf_set_sym_val (s.get x).curr.type w
            ≡ some (value_of (s.get x).curr.type (s.get x).curr)
          → (ends_once (set_line name w) ≡ true)
            × (terminated (set_line name w) ≡ set_line name w)
            × ((r' : Reader) × (read_line symbols (set_line name w) r ≡ some r')
                × ReadInto x (value_of (s.get x).curr.type (s.get x).curr) r.store r'.store)
      set w written reads =
          let is_value = e.one_line w written in
          let c = (s.get x).curr in
          let (r', runs, read) =
            set_line-ReadInto symbols x name r apart e.found e.is_name w c is_value
              (subst (λ ty. conf_set_sym_val ty w ≡ some (value_of ty c)) (sym same) reads) in
          (
            set_line-ends_once name w e.is_name is_value,
            terminated-set_line name w e.is_name is_value,
            (r', runs, subst (λ ty. ReadInto x (value_of ty c) r.store r'.store) same read),
          )

      by :
          (w : Bytes)
          → written_value (table s) x ≡ some w
          → conf_write_symbol (table s) x name false
            ≡ some (
                if is_tristate_like (s.get x).curr.type && first w == b'n'
                then unset_line name
                else set_line name w)
          → conf_set_sym_val (s.get x).curr.type w
            ≡ some (value_of (s.get x).curr.type (s.get x).curr)
          → (like letter : Bool) → is_tristate_like (s.get x).curr.type ≡ like
          → (first w == b'n') ≡ letter
          → (line : Bytes) × IsLine symbols s r x name line
      by w written line reads true true l n =
          let (r', runs, read) =
            unset_line-ReadInto symbols x name r apart e.found e.is_name
              (ap is_tristate_like same ∙ l) in
          (
            unset_line name,
            (
              line ∙ ap some (rw (l, n) refl),
              unset_line-ends_once name e.is_name,
              terminated-unset_line name e.is_name,
              (
                r',
                runs,
                subst (λ v. ReadInto x v r.store r'.store)
                    (sym (unset_value _ (s.get x).curr w l n reads)) read,
              ),
            ),
          )
      by w written line reads true false l n =
          (let (once, whole, run) = set w written reads in
            (set_line name w, (line ∙ ap some (rw (l, n) refl), once, whole, run)))
      by w written line reads false letter l n =
          (let (once, whole, run) = set w written reads in
            (set_line name w, (line ∙ ap some (rw l refl), once, whole, run)))

  -- What is read of the lines of symbols leaves the values of other symbols.
  reads_back :
      (entries : Entries) (r : Reader)
      → AreEntries symbols s r.store entries
      → ((y : Sym) → (r.store.get y).curr.type ≡ (s.get y).curr.type)
      → (text : Bytes) × (write_symbols (table s) entries ≡ some text)
        × (r' : Reader) × (read_lines symbols (map terminated (lines_of text)) r ≡ some r')
        × HaveValues s r'.store entries
        × ((y : Sym) → IsApart r.store y entries → HasValue s r.store y → HasValue s r'.store y)
  unfolding write_symbols read_lines AreEntries HaveValues IsApart lines_of
  reads_back [] r e same = ([], refl, r, refl, tt, λ y a h. h)
  reads_back ((x, name) ∷ more) r (entry, apart, others, entries) same =
      let (line, (written, once, whole, (q, runs, (only, set, val)))) =
        entry-IsLine r x name entry apart (same x) in
      let choices : (y : Sym) → (q.store.get y).choice ≡ (r.store.get y).choice =
        λ y. let (a, b, c, d) = only.fixed y in b in
      let types : (y : Sym) → (q.store.get y).curr.type ≡ (s.get y).curr.type =
        λ y. let (a, b, c, d) = only.fixed y in ap (λ u. u.type) a ∙ same y in
      let (text, written', r', runs', have, keep) =
        reads_back more q (AreEntries-same symbols s r.store q.store choices more entries) types in
      (
        line ++ text,
        (rw (written, written') refl),
        r',
        read_text symbols line text r q (some r') once whole runs runs',
        (keep x (IsApart-same r.store q.store x choices more others) (set, val), have),
        λ y (away, apart_y, rest) value.
            keep y (IsApart-same r.store q.store y choices more rest) (
              HasValue-same s r.store q.store y (only.same y (ground (arith, away, apart_y)))
                value),
      )

  -- A configuration that is written is read back. For calculated symbols with names that the table finds, of
  -- known types, with values on one line and none the choice of another, conf_write_symbol writes lines,
  -- and conf_read_simple reads these on any store with the same types and choices: afterwards every symbol
  -- has for its user value the value that it had when it was written.
  pub conf_read_simple-write_symbols :
      (freed : ℕ → Bytes) (entries : Entries) (r : Store)
      → AreEntries symbols s r entries
      → ((y : Sym) → (r.get y).curr.type ≡ (s.get y).curr.type)
      → (text : Bytes) × (write_symbols (table s) entries ≡ some text)
        × (r' : Reader) × (conf_read_simple symbols freed text r ≡ some r')
        × HaveValues s r'.store entries
  unfolding conf_read_simple
  conf_read_simple-write_symbols freed entries r e same =
      let fixed = reset_symbols-FixedUnless freed r in
      let (text, writes, r', reads, have, keep) =
        reads_back entries (record { store = reset_symbols freed r; warnings = 0 })
          (AreEntries-same symbols s r (reset_symbols freed r)
            (λ y. let ((a, b, c, d), val) = fixed y in b) entries e)
          (λ y. let ((a, b, c, d), val) = fixed y in ap (λ u. u.type) a ∙ same y) in
      (text, writes, r', reads, have)
