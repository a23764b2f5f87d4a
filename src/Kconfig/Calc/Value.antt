-- ===== src/Kconfig/Calc/Value.antt =====
-- sym_calc_value of scripts/kconfig/symbol.c.
use lightbuild.Prelude.{
  ℕ, zero, suc, Bool, true, false, ◌&&◌, Option, none, some, List, [], ◌∷◌, Bytes, ◌==◌,
  if◌then◌else◌,
}
use lightbuild.Kconfig.Tristate.{Tristate, tri_no, tri_yes, tri_eq, expr_and, expr_or}
use lightbuild.Kconfig.Symbol.{SymbolType, unknown, string, type_eq, letter, Sym}
use lightbuild.Kconfig.Store.{DefaultProp, UserSymbol, sym_get_type}
use lightbuild.Kconfig.Default.{prop_get_symbol, is_tristate_like}
use lightbuild.Kconfig.Monad.{M, pure, ◌>>=◌, ◌>>◌, read, write, set, when}
use lightbuild.Kconfig.Calc.{
  user, is_no, negate, settle, set_changed, calc_cond, default_prop, sym_calc_visibility,
}
use lightbuild.Kconfig.Calc.Choice.{sym_calc_choice, sym_validate_range, set_all_choice_values}

-- The addresses of no string, of symbol_empty's and of symbol_no's.
abbrev pub null_at : ℕ
null_at = 0

abbrev pub empty_at : ℕ
empty_at = 1

abbrev pub no_at : ℕ
no_at = 2

-- `struct symbol_value`.
pub record Value : Type 0 where
  pub val : Bytes
  pub at : ℕ
  pub tri : Tristate

-- symbol_no.curr for BOOLEAN and TRISTATE symbols, symbol_empty.curr for the others.
abbrev pub start_value : SymbolType → Value
start_value type =
    if is_tristate_like type
    then record { val = letter tri_no; at = no_at; tri = tri_no }
    else record { val = []; at = empty_at; tri = tri_no }

abbrev pub with_value : Value → UserSymbol → UserSymbol
with_value v u = record u {
  curr = record u.curr { val = v.val; tri = v.tri };
  curr_choice = none;
  val_at = v.at;
}

abbrev pub set_write : Sym → M (Unit {0})
set_write x = set x (λ u. record u { is_write = true })

abbrev pub is_sym : Option Sym → Sym → Bool
is_sym none x = false
is_sym (some y) x = y == x

-- Whether the bytes of `curr` have changed.
abbrev pub same_choice : Option Sym → Option Sym → Bool
same_choice none none = true
same_choice (some x) (some y) = x == y
same_choice _ _ = false

abbrev pub same_value : UserSymbol → UserSymbol → Bool
same_value u w =
    same_choice u.curr_choice w.curr_choice
    && (u.val_at == w.val_at && tri_eq u.curr.tri w.curr.tri)

-- sym_set_all_changed.
unfoldable pub set_all_changed : List Sym → M (Unit {0})
set_all_changed [] = pure tt
set_all_changed (x ∷ xs) = set_changed x >> set_all_changed xs

-- The last loop over the values of a choice.
unfoldable pub pass_on : Sym → List Sym → M (Unit {0})
pass_on x [] = pure tt
pass_on x (e ∷ es) = do
  u ← user x
  w ← user e
  when (u.is_write && negate (is_no w.visible)) (set_write e)
  v ← user x
  when v.is_changed (set_changed e)
  pass_on x es

-- The flags for a change of `curr`.
unfoldable pub note_change : Sym → UserSymbol → M (Unit {0})
note_change x old = do
  u ← user x
  m ← read (λ s. s.modules_sym)
  all ← read (λ s. s.symbols)
  when (negate (same_value old u)) (
      set_changed x
      >> when (m == x) (
          set_all_changed all
          >> write (λ s. record s { modules_val = (s.get s.modules_sym).curr.tri })))

abbrev pub name_of : Option Bytes → Bytes
name_of none = []
name_of (some n) = n

module _ (calc : Sym → M (Unit {0})) where
  -- The value of a symbol that is no choice value in a visible choice and has no user value.
  unfoldable pub default_tristate : Sym → M Tristate
  default_tristate x = do
    u ← user x
    when (negate (is_no u.rev_dep)) (set_write x)
    if u.is_choice then pure tri_no else do
      prop ← default_prop calc u.defaults
      own ← elim prop [
        | none ↦ pure tri_no
        | some (p, v) ↦ calc_cond calc p.value >>= λ d. pure (expr_and d v)
      ]
      when (negate (is_no own)) (set_write x)
      w ← user x
      if is_no w.implied
          then pure own
          else set_write x >> pure (expr_and (expr_or own w.implied) w.dir_dep)

  -- A visible symbol with a user value takes that, as far as it is visible.
  unfoldable pub free_tristate : Sym → M Tristate
  free_tristate x = do
    u ← user x
    v ←
        if negate (is_no u.visible) && u.is_set
        then pure (expr_and u.def_tri u.visible)
        else default_tristate x
    w ← user x
    pure (expr_or v w.rev_dep)

  unfoldable pub new_tristate : Sym → M Value
  new_tristate x = do
    u ← user x
    v ←
        if u.is_choice_value && tri_eq u.visible tri_yes
        then (user u.choice >>= λ c. pure (if is_sym c.curr_choice x then tri_yes else tri_no))
        else free_tristate x
    type ← read (λ s. sym_get_type s x)
    pure (record { val = letter tri_no; at = no_at; tri = settle type v })

  unfoldable pub default_text : Option (DefaultProp × Tristate) → Sym → M Value
  default_text none x = pure (start_value string)
  default_text (some (p, v)) x = elim (prop_get_symbol p) [
    | none ↦ pure (start_value string)
    | some ds ↦ do
      set_write x
      calc ds
      d ← user ds
      pure (record { val = d.curr.val; at = d.val_at; tri = tri_no })
  ]

  unfoldable pub new_text : Sym → M Value
  new_text x = do
    u ← user x
    if negate (is_no u.visible) && u.is_set
        then pure (elim u.def_val [
          | none ↦ record { val = []; at = null_at; tri = tri_no }
          | some val ↦ record { val = val; at = u.def_at; tri = tri_no }
        ])
        else default_prop calc u.defaults >>= λ prop. default_text prop x

  -- The value of a choice that is `y`.
  unfoldable pub take_choice : Sym → M (Unit {0})
  take_choice x = do
    u ← user x
    when (u.is_choice && tri_eq u.curr.tri tri_yes) (
        sym_calc_choice calc x >>= λ d. set x (λ w. record w { curr_choice = d; val_at = null_at }))

  -- What follows the assignment of the new value.
  unfoldable pub finish_value : Sym → UserSymbol → M (Unit {0})
  finish_value x old = do
    take_choice x
    sym_validate_range calc x
    note_change x old
    u ← user x
    when u.is_choice (pass_on x u.members)
    v ← user x
    when v.is_no_write (set x (λ w. record w { is_write = false }))
    w ← user x
    when w.needs_choice_values (set_all_choice_values x)

  -- A symbol whose type is known.
  unfoldable pub calc_known : Sym → UserSymbol → M (Unit {0})
  calc_known x old = do
    set x (λ u. record u { is_write = false })
    sym_calc_visibility calc x
    u ← user x
    when (negate (is_no u.visible)) (set_write x)
    set x (with_value (start_value u.curr.type))
    v ← if is_tristate_like u.curr.type then new_tristate x else new_text x
    set x (with_value v)
    finish_value x old

  -- What follows the test of the flag VALID.
  unfoldable pub calc_invalid : Sym → M (Unit {0})
  calc_invalid x = do
    u ← user x
    when (u.is_choice_value && u.needs_choice_values)
        (set x (λ w. record w { needs_choice_values = false }) >> calc u.choice)
    set x (λ w. record w { is_valid = true })
    old ← user x
    if type_eq u.curr.type unknown
        then set x
            (λ w. with_value (record { val = name_of w.curr.name; at = w.name_at; tri = tri_no }) w)
        else calc_known x old

  unfoldable pub calc_body : Sym → M (Unit {0})
  calc_body x = user x >>= λ u. if u.is_valid then pure tt else calc_invalid x

-- Each call within a call costs a unit of fuel.
unfoldable pub calc_fuel : ℕ → Sym → M (Unit {0})
calc_fuel zero x = λ s. none
calc_fuel (suc f) x = calc_body (calc_fuel f) x
