-- ===== src/Kconfig/Default/Bounds.antt =====
-- What sym_get_string_default of scripts/kconfig/symbol.c gives a BOOLEAN or TRISTATE symbol.
use lightbuild.Prelude.{◌≤◌, ◌≡◌, refl, Bool, false, ◌⊎◌, inl, inr, arith}
use lightbuild.Kconfig.Tristate.{Tristate, tri_no, tri_mod, rank, expr_or}
use lightbuild.Kconfig.Symbol.{SymbolType, boolean, letter, Table, IsTristateLike}
use lightbuild.Kconfig.Default.{
  DefaultSymbol, sym_get_default_prop, default_val, without_modules, without_mod, at_least,
  adjusted, sym_get_string_default,
}

-- The three adjustments and the select, one behind the other.
adjustments :
    (type : SymbolType) (modules val rev_dep implied : Tristate) (choice : Bool)
    → let v =
        at_least implied
          (without_mod type (without_modules modules choice (expr_or val rev_dep))) in
      (rank rev_dep ≤ rank v)
      × (rank implied ≤ rank v)
      × (rank val ≤ rank v)
      × (v ≡ tri_mod
          → ((type ≡ boolean) ⊎ ((choice ≡ false) × (modules ≡ tri_no)))
          → (implied ≡ tri_mod) × (rev_dep ≡ tri_no) × (val ≡ tri_no))
unfolding at_least without_mod without_modules expr_or
adjustments type modules val rev_dep implied choice = ground arith

-- The value of the first default that applies, limited by its condition.
abbrev pub own_default : Table → DefaultSymbol → Tristate
own_default t s = default_val t s.type (sym_get_default_prop t s.defaults)

-- The string that sym_get_string_default gives a BOOLEAN or TRISTATE symbol is the letter of a value
-- that is at least what selects it, what implies it and the first default that applies. Where the
-- symbol is BOOLEAN, or modules are off and it is no choice value, it is "m" only if the symbol is
-- implied by `m`, not selected and without a default.
pub sym_get_string_default_sound :
    (t : Table) (s : DefaultSymbol)
    → IsTristateLike s.type
    → (v : Tristate) × (sym_get_string_default t s ≡ letter v)
      × (rank s.rev_dep ≤ rank v)
      × (rank s.implied ≤ rank v)
      × (rank (own_default t s) ≤ rank v)
      × (v ≡ tri_mod
          → ((s.type ≡ boolean)
              ⊎ ((s.is_choice_value ≡ false) × ((t.get t.modules_sym).tri ≡ tri_no)))
          → (s.implied ≡ tri_mod) × (s.rev_dep ≡ tri_no) × (own_default t s ≡ tri_no))
unfolding sym_get_string_default adjusted
sym_get_string_default_sound t s type =
    let (select, imply, own, only) =
      adjustments s.type (t.get t.modules_sym).tri (own_default t s) s.rev_dep s.implied
        s.is_choice_value in
    (adjusted t s, by type, select, imply, own, only)
  where
    by : IsTristateLike s.type → sym_get_string_default t s ≡ letter (adjusted t s)
    by (inl h) = rw (h, sym_get_string_default) refl
    by (inr h) = rw (h, sym_get_string_default) refl
