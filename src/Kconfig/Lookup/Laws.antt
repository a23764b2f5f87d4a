-- ===== src/Kconfig/Lookup/Laws.antt =====
-- What sym_lookup and sym_find of scripts/kconfig/symbol.c find after a lookup.
use lightbuild.Prelude.{
  ℕ, ◌≡◌, ◌≢◌, refl, sym, ap, ◌∙◌, true, Option, none, some, Bytes, ◌==◌, ==_iff, subst, streq,
  streq_iff, Bool-cases, inl, inr, ◌⊎◌,
}
use lightbuild.Kconfig.Symbol.{Sym}
use lightbuild.Kconfig.Lookup.{
  symbol_const, symbol_choice, SymbolTable, Found, wanted, first_wanted, first_variable,
  constant_name, new_symbol, bucket, sym_lookup, sym_find,
}

-- The flags that a named symbol is looked up with.
abbrev pub IsLookupFlags : ℕ → Type 0
IsLookupFlags flags = (flags ≡ 0) ⊎ (flags ≡ symbol_const) ⊎ (flags ≡ symbol_choice)

wanted_self : (flags : ℕ) → IsLookupFlags flags → wanted flags flags ≡ true
wanted_self flags (inl h) = rw h refl
wanted_self flags (inr (inl h)) = rw h refl
wanted_self flags (inr (inr h)) = rw h refl

lookup_constant :
    (t : SymbolTable) (name : Bytes) (flags : ℕ) (s : Sym)
    → constant_name name ≡ some s
    → sym_lookup t (some name) flags ≡ record { symbol = s; table = t }
unfolding sym_lookup
lookup_constant t name flags s e = rw (e, sym_lookup) refl

lookup_known :
    (t : SymbolTable) (name : Bytes) (flags : ℕ) (s : Sym)
    → constant_name name ≡ none
    → first_wanted name flags (t.symbol_hash (bucket name)) ≡ some s
    → sym_lookup t (some name) flags ≡ record { symbol = s; table = t }
unfolding sym_lookup
lookup_known t name flags s e k = rw (e, sym_lookup, k) refl

lookup_new :
    (t : SymbolTable) (name : Bytes) (flags : ℕ)
    → constant_name name ≡ none
    → first_wanted name flags (t.symbol_hash (bucket name)) ≡ none
    → sym_lookup t (some name) flags ≡ new_symbol t (some name) (bucket name) flags
unfolding sym_lookup
lookup_new t name flags e k = rw (e, sym_lookup, k) refl

new_wanted :
    (t : SymbolTable) (name : Bytes) (flags : ℕ)
    → IsLookupFlags flags
    → first_wanted name flags
        ((new_symbol t (some name) (bucket name) flags).table.symbol_hash (bucket name))
      ≡ some t.fresh
unfolding new_symbol
new_wanted t name flags h =
    rw ((==_iff (bucket name) (bucket name)).1 refl)
      (rw ((streq_iff name name).1 refl) (rw (wanted_self flags h) refl))

-- Looking a name up again, with the flags it was first looked up with, finds the same symbol and
-- leaves the table as it is.
pub sym_lookup-sym_lookup :
    (t : SymbolTable) (name : Bytes) (flags : ℕ)
    → IsLookupFlags flags
    → sym_lookup (sym_lookup t (some name) flags).table (some name) flags
      ≡ sym_lookup t (some name) flags
sym_lookup-sym_lookup t name flags h = by_name (constant_name name) refl
  where
    Again : Found → Type 0
    Again r = sym_lookup r.table (some name) flags ≡ r

    by_bucket :
        (w : Option Sym)
        → constant_name name ≡ none
        → first_wanted name flags (t.symbol_hash (bucket name)) ≡ w
        → Again (sym_lookup t (some name) flags)
    by_bucket (some s) e k =
        subst Again (sym (lookup_known t name flags s e k)) (lookup_known t name flags s e k)
    by_bucket none e k = subst Again (sym (lookup_new t name flags e k)) (
        lookup_known _ name flags t.fresh e (new_wanted t name flags h) ∙ unfold new_symbol in refl)

    by_name : (c : Option Sym) → constant_name name ≡ c → Again (sym_lookup t (some name) flags)
    by_name (some s) e =
        subst Again (sym (lookup_constant t name flags s e)) (lookup_constant t name flags s e)
    by_name none e = by_bucket (first_wanted name flags (t.symbol_hash (bucket name))) e refl

-- The bucket of another name, or of this name at its head.
new_other :
    (t : SymbolTable) (name other : Bytes) (flags wants : ℕ)
    → name ≢ other
    → (first_wanted other wants
          ((new_symbol t (some name) (bucket name) flags).table.symbol_hash (bucket other))
        ≡ first_wanted other wants (t.symbol_hash (bucket other)))
      × (first_variable other
            ((new_symbol t (some name) (bucket name) flags).table.symbol_hash (bucket other))
          ≡ first_variable other (t.symbol_hash (bucket other)))
unfolding new_symbol
new_other t name other flags wants ne = elim (Bool-cases (streq name other)) [
  | inl same ↦ absurd (ne ((streq_iff name other).0 same))
  | inr differ ↦ elim (Bool-cases (bucket other == bucket name)) [
    | inl here ↦ rw here (rw differ (refl, refl))
    | inr away ↦ rw away (refl, refl)
  ]
]

-- A lookup changes nothing for another name: neither the symbol that a lookup of that name with any
-- flags would find in its bucket, nor what sym_find gives for it.
pub sym_find-sym_lookup_other :
    (t : SymbolTable) (name other : Bytes) (flags wants : ℕ)
    → name ≢ other
    → (first_wanted other wants ((sym_lookup t (some name) flags).table.symbol_hash (bucket other))
        ≡ first_wanted other wants (t.symbol_hash (bucket other)))
      × (sym_find (sym_lookup t (some name) flags).table (some other) ≡ sym_find t (some other))
unfolding sym_find
sym_find-sym_lookup_other t name other flags wants ne = by_name (constant_name name) refl
  where
    Same : Found → Type 0
    Same r =
        (first_wanted other wants (r.table.symbol_hash (bucket other))
          ≡ first_wanted other wants (t.symbol_hash (bucket other)))
        × (sym_find r.table (some other) ≡ sym_find t (some other))

    by_bucket :
        (w : Option Sym)
        → constant_name name ≡ none
        → first_wanted name flags (t.symbol_hash (bucket name)) ≡ w
        → Same (sym_lookup t (some name) flags)
    by_bucket (some s) e k = subst Same (sym (lookup_known t name flags s e k)) (refl, refl)
    by_bucket none e k =
        let (finds, variable) = new_other t name other flags wants ne in
        subst Same (sym (lookup_new t name flags e k))
          (finds, ap (λ v. elim (constant_name other) [ some s ↦ some s | none ↦ v ]) variable)

    by_name : (c : Option Sym) → constant_name name ≡ c → Same (sym_lookup t (some name) flags)
    by_name (some s) e = subst Same (sym (lookup_constant t name flags s e)) (refl, refl)
    by_name none e = by_bucket (first_wanted name flags (t.symbol_hash (bucket name))) e refl
