-- ===== src/Kconfig/Assign/Strings/Stored.antt =====
-- What sym_set_string_value of scripts/kconfig/symbol.c leaves in `def[S_DEF_USER]`.
use lightbuild.Prelude.{
  suc, ◌≡◌, refl, sym, ap, ◌∙◌, true, false, Option, none, some, ◌∷◌, Bytes, ==_iff, if◌then◌else◌,
  streq_iff, Bool-cases, inl, inr, ◌⊎◌, arith,
}
use lightbuild.Kconfig.Symbol.{SymbolType, unknown, boolean, tristate, int, hex, string, Sym}
use lightbuild.Kconfig.Strto.{strtoll}
use lightbuild.Kconfig.StringValid.{sym_string_valid}
use lightbuild.Kconfig.StringValid.Number.{has_x}
use lightbuild.Kconfig.StringValid.Prefix.{strtoll-prefix}
use lightbuild.Kconfig.Store.{among, Store, with_def}
use lightbuild.Kconfig.Assign.Ready.{IsIdle, update-IsIdle, mark_set-IsIdle, invalidate_all-IsIdle}
use lightbuild.Kconfig.Assign.{mark_set, sym_clear_all_valid, invalidate_all}
use lightbuild.Kconfig.Assign.Strings.{
  needs_prefix, is_old, write_string, assign_string, sym_string_within_range, sym_set_string_value,
}

-- A hexadecimal number with its prefix, "0x" or "0X".
abbrev pub prefixed : Bytes → Bytes
prefixed digits = if has_x digits then digits else b'0' ∷ b'x' ∷ digits

-- The string that a symbol of the type has for `newval`.
abbrev pub stored : SymbolType → Bytes → Bytes
stored hex newval = prefixed newval
stored _ newval = newval

stored-needs_prefix :
    (type : SymbolType) (newval : Bytes)
    → stored type newval ≡ (if needs_prefix type newval then b'0' ∷ b'x' ∷ newval else newval)
unfolding needs_prefix
stored-needs_prefix hex newval = elim (Bool-cases (has_x newval)) [
  | inl x ↦ rw x refl
  | inr plain ↦ rw plain refl
]
stored-needs_prefix unknown newval = refl
stored-needs_prefix boolean newval = refl
stored-needs_prefix tristate newval = refl
stored-needs_prefix int newval = refl
stored-needs_prefix string newval = refl

stored-has_x : (newval : Bytes) → has_x (stored hex newval) ≡ true
stored-has_x newval = elim (Bool-cases (has_x newval)) [
  | inl x ↦ rw x x
  | inr plain ↦ rw plain refl
]

-- A calculation keeps the strings that users have set, on the stores on which it may be called.
abbrev pub KeepsStrings : (Sym → Store → Store) → Type 0
KeepsStrings calc =
    (y : Sym) (s : Store) (x : Sym) → IsIdle s → ((calc y s).get x).def_val ≡ (s.get x).def_val

is_old_lem : (v : Option Bytes) (newval : Bytes) → is_old v newval ≡ true → v ≡ some newval
is_old_lem none newval h = absurd (cc)
is_old_lem (some o) newval h = ap some ((streq_iff o newval).0 h)

-- The stored form is as valid, and for a HEX symbol it is the same number.
stored_lem :
    (type : SymbolType) (newval : Bytes)
    → sym_string_valid type newval ≡ true
    → (sym_string_valid type (stored type newval) ≡ true)
      × (type ≡ hex → (strtoll 16 (stored type newval)).value ≡ (strtoll 16 newval).value)
unfolding sym_string_valid
stored_lem hex newval h = elim (Bool-cases (has_x newval)) [
  | inl x ↦ rw x (h, λ e. refl)
  | inr plain ↦ let (valid, same) = strtoll-prefix newval h plain in rw plain (valid, λ e. same)
]
stored_lem unknown newval h = (h, λ e. refl)
stored_lem boolean newval h = (h, λ e. refl)
stored_lem tristate newval h = (h, λ e. refl)
stored_lem int newval h = (h, λ e. refl)
stored_lem string newval h = (h, λ e. refl)

abbrev pub IsNumberOrString : SymbolType → Type 0
IsNumberOrString type = (type ≡ int) ⊎ (type ≡ hex) ⊎ (type ≡ string)

within_valid :
    (s : Store) (x : Sym) (str : Bytes)
    → IsNumberOrString (s.get x).curr.type
    → sym_string_within_range s x str ≡ true
    → sym_string_valid (s.get x).curr.type str ≡ true
unfolding sym_string_within_range sym_string_valid
within_valid s x str h w = ground (arith)

invalidate_all-def_val :
    (s : Store) (y : Sym) → ((invalidate_all s).get y).def_val ≡ (s.get y).def_val
unfolding invalidate_all
invalidate_all-def_val s y = elim (Bool-cases (among y s.symbols)) [
  | inl listed ↦ rw listed refl
  | inr other ↦ rw other refl
]

write_string-IsIdle : (x : Sym) (val : Bytes) (s : Store) → IsIdle s → IsIdle (write_string x val s)
write_string-IsIdle x val s (c, p) =
    update-IsIdle (record s { fresh = suc s.fresh }) x
      (λ u. record (with_def (some val) u.def_tri u.def_choice u) { def_at = s.fresh })
      (λ u. (refl, refl)) (c, p)

module _ (sym_calc_value : Sym → Store → Store) where
  written :
      (s : Store) (x : Sym) (val : Bytes)
      → KeepsStrings sym_calc_value
      → IsIdle s
      → ((sym_clear_all_valid sym_calc_value (write_string x val s)).get x).def_val ≡ some val
  unfolding sym_clear_all_valid
  written s x val keeps idle =
      keeps _ _ x (invalidate_all-IsIdle _ (write_string-IsIdle x val s idle))
      ∙ invalidate_all-def_val (write_string x val s) x
      ∙ (rw ((==_iff x x).1 refl) refl)

  assign_string-def_val :
      (s : Store) (x : Sym) (newval : Bytes)
      → KeepsStrings sym_calc_value
      → IsIdle s
      → ((assign_string sym_calc_value x newval s).get x).def_val
        ≡ some (if needs_prefix (s.get x).curr.type newval then b'0' ∷ b'x' ∷ newval else newval)
  unfolding assign_string
  assign_string-def_val s x newval keeps idle =
      elim (Bool-cases (needs_prefix (s.get x).curr.type newval)) [
        | inl prefix ↦
            rw prefix
              (written (mark_set x s) x (b'0' ∷ b'x' ∷ newval) keeps (mark_set-IsIdle x s idle))
        | inr none_needed ↦ elim (Bool-cases (is_old ((mark_set x s).get x).def_val newval)) [
          | inl old ↦ rw none_needed (rw old (is_old_lem _ newval old))
          | inr new ↦
              rw none_needed
                (rw new (written (mark_set x s) x newval keeps (mark_set-IsIdle x s idle)))
        ]
      ]

  set_within :
      (s : Store) (x : Sym) (str : Bytes)
      → IsNumberOrString (s.get x).curr.type
      → sym_set_string_value sym_calc_value s x str ≡ (
          if sym_string_within_range s x str
          then record { ok = true; store = assign_string sym_calc_value x str s }
          else record { ok = false; store = s })
  unfolding sym_set_string_value
  set_within s x str (inl h) = rw (h, sym_set_string_value) refl
  set_within s x str (inr (inl h)) = rw (h, sym_set_string_value) refl
  set_within s x str (inr (inr h)) = rw (h, sym_set_string_value) refl

  -- Setting a string on an INT, HEX or STRING symbol succeeds just where the string is within its
  -- range, and otherwise changes nothing. Behind it the symbol's user value is that string, for HEX
  -- with "0x" before it where it has neither "0x" nor "0X"; it is valid for the type and, for HEX, it
  -- is the same number and has a prefix.
  -- No choice has to set its values, all symbols outside the table are calculated, and the calculation
  -- that follows keeps the strings that users have set where that is so.
  pub sym_set_string_value_sound :
      (s : Store) (x : Sym) (newval : Bytes)
      → KeepsStrings sym_calc_value
      → IsIdle s
      → IsNumberOrString (s.get x).curr.type
      → (sym_string_within_range s x newval ≡ false
          → sym_set_string_value sym_calc_value s x newval ≡ record { ok = false; store = s })
        × (sym_string_within_range s x newval ≡ true
            → ((sym_set_string_value sym_calc_value s x newval).ok ≡ true)
              × (((sym_set_string_value sym_calc_value s x newval).store.get x).def_val
                  ≡ some (stored (s.get x).curr.type newval))
              × (sym_string_valid (s.get x).curr.type (stored (s.get x).curr.type newval) ≡ true)
              × ((s.get x).curr.type ≡ hex
                  → (strtoll 16 (stored (s.get x).curr.type newval)).value
                    ≡ (strtoll 16 newval).value)
              × ((s.get x).curr.type ≡ hex → has_x (stored (s.get x).curr.type newval) ≡ true))
  sym_set_string_value_sound s x newval keeps idle type = (
    λ out. rw (set_within s x newval type) (rw out refl),
    λ within.
        let result : sym_set_string_value sym_calc_value s x newval
            ≡ record { ok = true; store = assign_string sym_calc_value x newval s } =
          rw (set_within s x newval type) (rw within refl) in
        let (valid, same) =
          stored_lem (s.get x).curr.type newval (within_valid s x newval type within) in
        (
          ap (λ r. r.ok) result,
          ap (λ r. (r.store.get x).def_val) result
              ∙ assign_string-def_val s x newval keeps idle
              ∙ ap some (sym (stored-needs_prefix (s.get x).curr.type newval)),
          valid,
          same,
          λ e. rw e (stored-has_x newval),
        ),
  )
