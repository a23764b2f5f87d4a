-- ===== src/Kconfig/Calc/Choice.antt =====
-- sym_choice_default, sym_calc_choice and sym_validate_range of scripts/kconfig/symbol.c, and
-- set_all_choice_values of confdata.c.
use lightbuild.Prelude.{
  ℕ, zero, suc, ◌+◌, ◌/◌, ◌%◌, ◌-◌, Bool, true, false, ◌&&◌, Option, none, some, List, [], ◌∷◌,
  Bytes, leb, ltb, ◌==◌, if◌then◌else◌,
}
use lightbuild.Kconfig.Tristate.{tri_no}
use lightbuild.Kconfig.Symbol.{int, hex, type_eq, Sym}
use lightbuild.Kconfig.Strto.{word, strtoll, signed_key}
use lightbuild.Kconfig.Store.{Range, DefaultProp, Store}
use lightbuild.Kconfig.Default.{prop_get_symbol}
use lightbuild.Kconfig.Monad.{M, pure, ◌>>=◌, ◌>>◌, write, set, when}
use lightbuild.Kconfig.Calc.{
  user, is_no, negate, calc_cond, range_prop, range_val, sym_calc_visibility,
}

-- The first visible symbol of a list.
unfoldable pub first_visible : List Sym → M (Option Sym)
first_visible [] = pure none
first_visible (x ∷ xs) = user x >>= λ u. if is_no u.visible then first_visible xs else pure (some x)

-- printf's %llu and %llx; twenty digits hold 64 bits.
unfoldable pub digits : ℕ → ℕ → ℕ → Bytes → Bytes
digits zero base n acc = acc
digits (suc f) base n acc =
    let d = n % base in
    let shown = (if ltb d 10 then b'0' + d else b'a' + (d - 10)) ∷ acc in
    let more = digits f base (n / base) shown in if n / base == 0 then shown else more

-- %lld of a bit pattern, and 0x%llx.
unfoldable pub print_decimal : ℕ → Bytes
print_decimal n = if ltb n (word / 2) then digits 20 10 n [] else b'-' ∷ digits 20 10 (word - n) []

unfoldable pub print_hex : ℕ → Bytes
print_hex n = b'0' ∷ b'x' ∷ digits 20 16 n []

-- A string that xstrdup has copied.
abbrev pub store_copy : Sym → Bytes → Store → Store
store_copy x val s = record s {
  get = λ y.
      if y == x
      then record (s.get y) { curr = record (s.get y).curr { val = val }; val_at = s.fresh }
      else s.get y;
  fresh = suc s.fresh;
}

-- The loop of set_all_choice_values.
unfoldable pub reset_members : List Sym → M (Unit {0})
reset_members [] = pure tt
reset_members (e ∷ es) = user e >>= λ u.
    when (negate u.is_set) (set e (λ w. record w { def_tri = tri_no })) >> reset_members es

unfoldable pub set_all_choice_values : Sym → M (Unit {0})
set_all_choice_values x = do
  u ← user x
  reset_members u.members
  set x (λ w. record w { is_set = true; is_valid = false; needs_choice_values = false })

-- The user's choice, if it is visible.
unfoldable pub user_choice : Option Sym → M (Option Sym)
user_choice none = pure none
user_choice (some d) = user d >>= λ u. pure (if is_no u.visible then none else some d)

module _ (calc : Sym → M (Unit {0})) where
  -- The loop over the defaults of a choice, each of which is a symbol.
  unfoldable pub default_choice : List DefaultProp → M (Option Sym)
  default_choice [] = pure none
  default_choice (prop ∷ next) = calc_cond calc prop.condition >>= λ v.
      if is_no v then default_choice next else elim (prop_get_symbol prop) [
        | none ↦ default_choice next
        | some d ↦ user d >>= λ u. if is_no u.visible then default_choice next else pure (some d)
      ]

  unfoldable pub sym_choice_default : Sym → M (Option Sym)
  sym_choice_default x = do
    u ← user x
    d ← default_choice u.defaults
    elim d [ some y ↦ pure (some y) | none ↦ first_visible u.members ]

  -- The loop over the values of a choice: whether it and all visible ones have a user value.
  unfoldable pub all_set : List Sym → Bool → M Bool
  all_set [] b = pure b
  all_set (e ∷ es) b = do
    sym_calc_visibility calc e
    u ← user e
    all_set es (if is_no u.visible then b else b && u.is_set)

  unfoldable pub sym_calc_choice : Sym → M (Option Sym)
  sym_calc_choice x = do
    u ← user x
    b ← all_set u.members u.is_set
    set x (λ w. record w { is_set = w.is_set && b })
    w ← user x
    chosen ← user_choice w.def_choice
    elim chosen [
      | some d ↦ pure (some d)
      | none ↦ sym_choice_default x >>= λ d. elim d [
        | some y ↦ pure (some y)
        | none ↦ set x (λ v. record v { curr = record v.curr { tri = tri_no } }) >> pure none
      ]
    ]

  -- The value that a range puts in the place of one outside it.
  unfoldable pub range_limit : Range → ℕ → ℕ → M (Option ℕ)
  range_limit prop base val = do
    low ← range_val calc prop.low base
    if leb (signed_key low) (signed_key val)
        then (range_val calc prop.high base >>= λ high.
            pure (if leb (signed_key val) (signed_key high) then none else some high))
        else pure (some low)

  unfoldable pub validate_base : Sym → ℕ → (ℕ → Bytes) → M (Unit {0})
  validate_base x base print = do
    u ← user x
    r ← range_prop calc u.ranges
    elim r [
      | none ↦ pure tt
      | some prop ↦ do
        w ← user x
        limit ← range_limit prop base (strtoll base w.curr.val).value
        elim limit [ none ↦ pure tt | some v ↦ write (store_copy x (print v)) ]
    ]

  unfoldable pub sym_validate_range : Sym → M (Unit {0})
  sym_validate_range x = user x >>= λ u.
      if type_eq u.curr.type int
      then validate_base x 10 print_decimal
      else if type_eq u.curr.type hex
      then validate_base x 16 print_hex
      else pure tt
