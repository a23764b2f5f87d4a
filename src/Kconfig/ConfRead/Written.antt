-- ===== src/Kconfig/ConfRead/Written.antt =====
-- What conf_read_simple of scripts/kconfig/confdata.c does with a line that conf_write_symbol has written.
use lightbuild.Prelude.{
  ◌≡◌, ◌≢◌, refl, sym, ap, ◌∙◌, subst, Bool, true, ◌||◌, some, Bytes, ◌==◌, ==_iff, if◌then◌else◌,
  Bool-cases, inl, inr, arith, first,
}
use lightbuild.Kconfig.Tristate.{Tristate, tri_no, tri_mod, tri_yes}
use lightbuild.Kconfig.Symbol.{
  SymbolType, unknown, boolean, tristate, int, hex, string, Sym, Symbol,
}
use lightbuild.Kconfig.Default.{is_tristate_like}
use lightbuild.Kconfig.Store.{UserSymbol, Store, update}
use lightbuild.Kconfig.Lookup.{SymbolTable, sym_find}
use lightbuild.Kconfig.ConfValue.{
  ConfValue, refused, set_tri, set_val, conf_set_sym_val, set_line, unset_line,
}
use lightbuild.Kconfig.ConfValue.Roundtrip.{value_of}
use lightbuild.Kconfig.Assign.Ready.{SameFlags}
use lightbuild.Kconfig.ConfRead.{
  Reader, conf_warning, write_user, with_tri, with_val, allocate, note_choice, take_value, read_set,
  read_unset, read_kind, read_line,
}
use lightbuild.Kconfig.ConfRead.Lines.{IsName, IsValue, line_kind-set_line, line_kind-unset_line}
use lightbuild.Kconfig.ConfRead.Only.{
  Fixed, SameDef, Only, Only-trans, Only-free, update-Only, note_choice-Only, allocate-Only,
}

-- The user's value is this one.
abbrev pub IsUserValue : ConfValue → UserSymbol → Type 0
IsUserValue (set_tri v) u = u.def_tri ≡ v
IsUserValue (set_val p) u = u.def_val ≡ some p
IsUserValue _ u = Unit {0}

-- The symbol has a new user value; beside it only its choice has one.
abbrev pub ReadInto : Sym → ConfValue → Store → Store → Type 0
ReadInto x v s t =
    Only (λ y. y == x || y == (s.get x).choice) s t
    × ((t.get x).is_set ≡ true)
    × IsUserValue v (t.get x)

write_note :
    (x : Sym) (f : UserSymbol → UserSymbol) (r : Reader)
    → ((u : UserSymbol) → Fixed u (f u))
    → ((u : UserSymbol) → SameFlags u (f u))
    → x ≢ (r.store.get x).choice
    → Only
        (λ y. y == x || y == (r.store.get x).choice)
        r.store
        (note_choice x (write_user x f r)).store
      × SameDef (f (r.store.get x)) ((note_choice x (write_user x f r)).store.get x)
write_note x f r fix flag apart =
    let s = r.store in
    let own : (x == x) ≡ true = (==_iff x x).1 refl in
    let written = update s x f in
    let here : written.get x ≡ f (s.get x) = rw own refl in
    let (c, o, i, d) = fix (s.get x) in
    let owner : (written.get x).choice ≡ (s.get x).choice = ap (λ u. u.choice) here ∙ o in
    let noted = note_choice-Only x (write_user x f r) in
    let free : Sym → Bool = λ y. y == x || y == (s.get x).choice in
    (
      Only-trans free s written _ (update-Only free s x f (rw own refl) fix flag)
          (Only-free _ free written _ (λ y h. rw owner (ground (arith, h))) noted),
      subst (λ u. SameDef u ((note_choice x (write_user x f r)).store.get x)) here
          (noted.same x (rw owner (ground (arith, apart)))),
    )

module _ (x : Sym) (r : Reader) (apart : x ≢ (r.store.get x).choice) where
  take_tri :
      (v : Tristate)
      → ReadInto x (set_tri v) r.store (note_choice x (write_user x (with_tri v) r)).store
  take_tri v =
      let (only, (tri, val, set, chosen)) =
        write_note x (with_tri v) r (λ u. (refl, refl, refl, refl)) (λ u. (refl, refl)) apart in
      (only, set, tri)

  take_text : (p : Bytes) → ReadInto x (set_val p) r.store (take_value x (set_val p) r).store
  take_text p =
      let (only, (tri, val, set, chosen)) =
        write_note x (with_val p r.store.fresh) (allocate r) (λ u. (refl, refl, refl, refl))
          (λ u. (refl, refl)) apart in
      (
        Only-trans _ r.store (allocate r).store _
            (allocate-Only (λ y. y == x || y == (r.store.get x).choice) r) only,
        set,
        val,
      )

  take_value-ReadInto :
      (type : SymbolType) (c : Symbol)
      → ReadInto x (value_of type c) r.store (take_value x (value_of type c) r).store
  take_value-ReadInto boolean c = take_tri c.tri
  take_value-ReadInto tristate c = take_tri c.tri
  take_value-ReadInto unknown c = take_text c.val
  take_value-ReadInto int c = take_text c.val
  take_value-ReadInto hex c = take_text c.val
  take_value-ReadInto string c = take_text c.val

some_lem : {u v : ConfValue} → some u ≡ some v → u ≡ v
some_lem h = cc

-- A letter that is read as `n` has the value `n`.
pub unset_value :
    (type : SymbolType) (c : Symbol) (w : Bytes)
    → is_tristate_like type ≡ true
    → (first w == b'n') ≡ true
    → conf_set_sym_val type w ≡ some (value_of type c)
    → value_of type c ≡ set_tri tri_no
unfolding conf_set_sym_val
unset_value boolean c w like letter h = sym (
    some_lem (
      subst
        (λ k.
          some
            (if k == b'y' then set_tri tri_yes else if k == b'n' then set_tri tri_no else refused)
          ≡ some (set_tri c.tri))
        ((==_iff (first w) b'n').0 letter) h))
unset_value tristate c w like letter h = sym (
    some_lem (
      subst
        (λ k.
          some (
            if k == b'm'
            then set_tri tri_mod
            else if k == b'y'
            then set_tri tri_yes
            else if k == b'n'
            then set_tri tri_no
            else refused)
          ≡ some (set_tri c.tri))
        ((==_iff (first w) b'n').0 letter) h))
unset_value unknown c w like letter h = absurd (cc)
unset_value int c w like letter h = absurd (cc)
unset_value hex c w like letter h = absurd (cc)
unset_value string c w like letter h = absurd (cc)

module _ (symbols : SymbolTable) (x : Sym) (name : Bytes) (r : Reader)
    (apart : x ≢ (r.store.get x).choice) (found : sym_find symbols (some name) ≡ some x)
    (is_name : IsName name) where
  read_set-ReadInto :
      (w : Bytes) (c : Symbol)
      → conf_set_sym_val (r.store.get x).curr.type w ≡ some (value_of (r.store.get x).curr.type c)
      → (r' : Reader) × (read_set x w r ≡ some r')
        × ReadInto x (value_of (r.store.get x).curr.type c) r.store r'.store
  unfolding read_set
  read_set-ReadInto w c h = elim (Bool-cases (r.store.get x).is_set) [
    | inl set ↦
        let q = conf_warning true r in
        (
          take_value x (value_of (r.store.get x).curr.type c) q,
          (rw (set, h) refl),
          take_value-ReadInto x q apart (r.store.get x).curr.type c,
        )
    | inr unset ↦ (
      take_value x (value_of (r.store.get x).curr.type c) r,
      (rw (unset, h) refl),
      take_value-ReadInto x r apart (r.store.get x).curr.type c,
    )
  ]

  pub set_line-ReadInto :
      (w : Bytes) (c : Symbol)
      → IsValue w
      → conf_set_sym_val (r.store.get x).curr.type w ≡ some (value_of (r.store.get x).curr.type c)
      → (r' : Reader) × (read_line symbols (set_line name w) r ≡ some r')
        × ReadInto x (value_of (r.store.get x).curr.type c) r.store r'.store
  unfolding read_line
  set_line-ReadInto w c is_value h =
      let (r', runs, read) = read_set-ReadInto w c h in
      (r', rw (line_kind-set_line name w is_name is_value) (rw (found, read_kind) runs), read)

  pub unset_line-ReadInto :
      is_tristate_like (r.store.get x).curr.type ≡ true
      → (r' : Reader) × (read_line symbols (unset_line name) r ≡ some r')
        × ReadInto x (set_tri tri_no) r.store r'.store
  unfolding read_line read_unset
  unset_line-ReadInto like = elim (Bool-cases (r.store.get x).is_set) [
    | inl set ↦ (
      note_choice x (write_user x (with_tri tri_no) (conf_warning true r)),
      rw (line_kind-unset_line name is_name) (rw (found, read_kind) (rw (set, like) refl)),
      take_tri x (conf_warning true r) apart tri_no,
    )
    | inr unset ↦ (
      note_choice x (write_user x (with_tri tri_no) r),
      rw (line_kind-unset_line name is_name) (rw (found, read_kind) (rw (unset, like) refl)),
      take_tri x r apart tri_no,
    )
  ]
