-- ===== src/Kconfig/ConfRead/Total.antt =====
-- conf_read_simple of scripts/kconfig/confdata.c on any text: it ends, and each line changes little.
use lightbuild.Prelude.{
  ℕ, ◌≡◌, refl, Bool, true, false, Option, none, some, List, [], ◌∷◌, Bytes, if◌then◌else◌,
  Bool-cases, inl, inr, map,
}
use lightbuild.Kconfig.Tristate.{tri_no}
use lightbuild.Kconfig.Symbol.{Sym}
use lightbuild.Kconfig.Default.{is_tristate_like}
use lightbuild.Kconfig.Store.{Store}
use lightbuild.Kconfig.Lookup.{SymbolTable, sym_find}
use lightbuild.Kconfig.ConfValue.{conf_set_sym_val}
use lightbuild.Kconfig.ConfRead.{
  Reader, LineKind, skipped, unexpected, unset_symbol, set_symbol, line_kind, conf_warning,
  write_user, with_tri, take_value, sym_add_change_count, read_set, read_unset, read_kind,
  read_line, read_lines, reset_symbols, conf_read_simple, lines_of, terminated,
}
use lightbuild.Kconfig.ConfRead.Only.{
  FixedUnless, FixedUnless-Fixed, is_gone, Only, Only-refl, Only-trans, Only-free, write_user-Only,
  conf_warning-Only, reset_symbols-FixedUnless,
}
use lightbuild.Kconfig.ConfRead.Safe.{
  conf_set_sym_val-total, is_refused, is_own, may_change, noted-Only, is_own_lem, take_value-Only,
}

count-Only : (free : Sym → Bool) (r : Reader) → Only free r.store (sym_add_change_count r).store
count-Only free r = record {
  symbols = (refl, refl);
  fixed = λ y. (refl, refl, refl, refl);
  flags = λ y. (refl, refl);
  same = λ y h. (refl, refl, refl, refl);
}

read_unset-Only : (x : Sym) (r : Reader) → Only (is_own x r.store) r.store (read_unset x r).store
unfolding read_unset
read_unset-Only x r =
    let b = (r.store.get x).is_set in
    elim (Bool-cases (is_tristate_like (r.store.get x).curr.type)) [
      | inl like ↦ rw like (
          noted-Only x (write_user x (with_tri tri_no) (conf_warning b r)) r.store (
            write_user-Only (is_own x r.store) b x (with_tri tri_no) r (is_own_lem x r.store)
              (λ u. (refl, refl, refl, refl)) (λ u. (refl, refl))))
      | inr other ↦
          rw other
            (noted-Only x (conf_warning b r) r.store (conf_warning-Only (is_own x r.store) b r))
    ]

read_set-Only :
    (x : Sym) (p : Bytes) (r : Reader)
    → (r' : Reader) × (read_set x p r ≡ some r')
      × Only
          (λ y.
            if is_refused (conf_set_sym_val (r.store.get x).curr.type p)
            then false
            else is_own x r.store y)
          r.store
          r'.store
unfolding read_set
read_set-Only x p r =
    let (v, e) = conf_set_sym_val-total (r.store.get x).curr.type p in
    (
      take_value x v (conf_warning (r.store.get x).is_set r),
      rw e refl,
      rw e (take_value-Only x v (r.store.get x).is_set r),
    )

module _ (symbols : SymbolTable) where
  abbrev Reads : LineKind → Reader → Type 0
  Reads kind r =
      (r' : Reader) × (read_kind symbols kind r ≡ some r')
      × Only (may_change symbols kind r.store) r.store r'.store

  read_unset-Reads :
      (name : Bytes) (r : Reader) (o : Option Sym)
      → sym_find symbols (some name) ≡ o
      → Reads (unset_symbol name) r
  read_unset-Reads name r none e = (
    sym_add_change_count r,
    rw (e, read_kind) refl,
    count-Only (may_change symbols (unset_symbol name) r.store) r,
  )
  read_unset-Reads name r (some x) e =
      (read_unset x r, rw (e, read_kind) refl, rw (e, may_change) (read_unset-Only x r))

  read_set-Reads :
      (name p : Bytes) (r : Reader) (o : Option Sym)
      → sym_find symbols (some name) ≡ o
      → Reads (set_symbol name p) r
  read_set-Reads name p r none e = (
    sym_add_change_count r,
    rw (e, read_kind) refl,
    count-Only (may_change symbols (set_symbol name p) r.store) r,
  )
  read_set-Reads name p r (some x) e =
      let (r', runs, only) = read_set-Only x p r in
      (r', rw (e, read_kind) runs, rw (e, may_change) only)

  read_kind-Only : (kind : LineKind) (r : Reader) → Reads kind r
  read_kind-Only skipped r = (r, refl, Only-refl _ r.store)
  read_kind-Only unexpected r = (conf_warning true r, refl, conf_warning-Only _ true r)
  read_kind-Only (unset_symbol name) r = read_unset-Reads name r (sym_find symbols (some name)) refl
  read_kind-Only (set_symbol name p) r = read_set-Reads name p r (sym_find symbols (some name)) refl

  -- Reading a line ends, whatever it holds. It gives a new user value at most to the symbol that it
  -- names and to that one's choice, and to none where it names no symbol that is known, where it is no
  -- line of a configuration, or where the value is refused; no symbol's type, calculated value,
  -- choice, visibility or dependency changes.
  pub read_line-Only :
      (line : Bytes) (r : Reader)
      → (r' : Reader) × (read_line symbols line r ≡ some r')
        × Only (may_change symbols (line_kind line) r.store) r.store r'.store
  unfolding read_line
  read_line-Only line r = read_kind-Only (line_kind line) r

  pub read_lines-total :
      (lines : List Bytes) (r : Reader)
      → (r' : Reader) × (read_lines symbols lines r ≡ some r') × Only (λ y. true) r.store r'.store
  unfolding read_lines
  read_lines-total [] r = (r, refl, Only-refl _ r.store)
  read_lines-total (line ∷ more) r =
      let (q, runs, only) = read_line-Only line r in
      let (r', runs', only') = read_lines-total more q in
      (
        r',
        rw (runs, read_lines) runs',
        Only-trans _ r.store q.store r'.store
            (Only-free _ (λ y. true) r.store q.store (λ y h. absurd (cc)) only) only',
      )

  -- Reading a configuration ends, whatever it holds. The reset at the start frees the users' strings of
  -- INT, HEX and STRING symbols; every symbol keeps its type, its tristate, its choice, for a choice the
  -- chosen symbol, its visibility and the values of its dependencies, and its string too unless that is one
  -- of those that are freed.
  pub conf_read_simple-total :
      (freed : ℕ → Bytes) (text : Bytes) (s : Store)
      → (r' : Reader) × (conf_read_simple symbols freed text s ≡ some r')
        × ((y : Sym) → FixedUnless (is_gone s y) (s.get y) (r'.store.get y))
  unfolding conf_read_simple
  conf_read_simple-total freed text s =
      let (r', runs, only) =
        read_lines-total (map terminated (lines_of text))
          (record { store = reset_symbols freed s; warnings = 0 }) in
      (
        r',
        runs,
        λ y.
            FixedUnless-Fixed (is_gone s y) (s.get y) ((reset_symbols freed s).get y)
              (r'.store.get y) (reset_symbols-FixedUnless freed s y) (only.fixed y),
      )
