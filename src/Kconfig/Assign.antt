-- ===== src/Kconfig/Assign.antt =====
-- What a user sets: sym_get_type, sym_tristate_within_range, sym_set_tristate_value and
-- sym_toggle_tristate_value of scripts/kconfig/symbol.c, on a store of symbols.
pub mod Ready
pub mod Toggle
pub mod Choice
pub mod Strings
use lightbuild.Prelude.{
  ℕ, zero, suc, ◌+◌, Bool, true, false, ◌&&◌, ◌||◌, Option, none, some, List, [], ◌∷◌, Bytes, ltb,
  leb, ◌==◌, if◌then◌else◌,
}
use lightbuild.Kconfig.Tristate.{Tristate, tri_no, tri_mod, tri_yes, rank, tri_eq}
use lightbuild.Kconfig.Symbol.{SymbolType, boolean, tristate, type_eq, Symbol, Sym, Table}
use lightbuild.Kconfig.Store.{
  UserSymbol, Store, sym_get_type, update, with_set, with_invalid, with_def, among, sym_set_changed,
}

-- sym_tristate_within_range, with the symbol's type.
unfoldable pub range_in : SymbolType → UserSymbol → Tristate → Bool
range_in type u val =
    if tri_eq u.visible tri_no
    then false
    else if (if type_eq type boolean || type_eq type tristate then false else true)
    then false
    else if type_eq type boolean && tri_eq val tri_mod
    then false
    else if leb (rank u.visible) (rank u.rev_dep)
    then false
    else if u.is_choice_value && tri_eq u.visible tri_yes
    then tri_eq val tri_yes
    else leb (rank u.rev_dep) (rank val) && leb (rank val) (rank u.visible)

unfoldable pub sym_tristate_within_range : Store → Sym → Tristate → Bool
sym_tristate_within_range s x val = range_in (sym_get_type s x) (s.get x) val

-- The flag DEF_USER, and the flags for a change where it was clear.
unfoldable pub mark_set : Sym → Store → Store
mark_set x s = if (s.get x).is_set then s else sym_set_changed x (update s x with_set)

-- The loop over the values that a choice lists.
unfoldable pub mark_members : List Sym → Store → Store
mark_members [] s = s
mark_members (e ∷ es) s =
    mark_members es (if tri_eq (s.get e).visible tri_no then s else update s e with_set)

-- The choice takes `x` for its value; it and all its visible values count as set.
unfoldable pub set_choice : Sym → Store → Store
set_choice x s =
    let cs = (s.get x).choice in
    mark_members (s.get cs).members
      (update s cs (λ u. with_set (with_def u.def_val u.def_tri (some x) u)))

-- for_all_symbols: the constant symbols are not in the table.
unfoldable pub invalidate_all : Store → Store
invalidate_all s = record s {
  get = λ y. if among y s.symbols then with_invalid (s.get y) else s.get y;
  sym_change_count = suc s.sym_change_count;
}

-- What a setter returns, with the store behind it.
pub record SetResult : Type 0 where
  pub ok : Bool
  pub store : Store

-- The switch of sym_toggle_tristate_value.
abbrev pub next_value : Tristate → Tristate
next_value tri_no = tri_mod
next_value tri_mod = tri_yes
next_value tri_yes = tri_no

module _ (sym_calc_value : Sym → Store → Store) where
  unfoldable pub sym_clear_all_valid : Store → Store
  sym_clear_all_valid s = sym_calc_value s.modules_sym (invalidate_all s)

  -- What sym_set_tristate_value does behind its guard.
  unfoldable pub assign_tristate : Sym → Tristate → Store → Store
  assign_tristate x val s =
      let oldval = (s.get x).curr.tri in
      let marked = mark_set x s in
      let chosen =
        if (s.get x).is_choice_value && tri_eq val tri_yes then set_choice x marked else marked in
      let written = update chosen x (λ u. with_def u.def_val val u.def_choice u) in
      if tri_eq oldval val then written else sym_clear_all_valid written

  unfoldable pub sym_set_tristate_value : Store → Sym → Tristate → SetResult
  sym_set_tristate_value s x val =
      if (if tri_eq (s.get x).curr.tri val then false else true)
        && (if sym_tristate_within_range s x val then false else true)
      then record { ok = false; store = s }
      else record { ok = true; store = assign_tristate x val s }

  -- The do loop; `none` means that the fuel ran out.
  unfoldable pub toggle_loop : ℕ → Sym → Tristate → Tristate → Store → Option (Tristate × Store)
  toggle_loop zero x oldval newval s = none
  toggle_loop (suc f) x oldval newval s =
      let r = sym_set_tristate_value s x (next_value newval) in
      let again = toggle_loop f x oldval (next_value newval) r.store in
      if r.ok
      then some (next_value newval, r.store)
      else if tri_eq oldval (next_value newval)
      then some (next_value newval, r.store)
      else again

  unfoldable pub sym_toggle_tristate_value : Store → Sym → Option (Tristate × Store)
  sym_toggle_tristate_value s x = toggle_loop 3 x (s.get x).curr.tri (s.get x).curr.tri s
