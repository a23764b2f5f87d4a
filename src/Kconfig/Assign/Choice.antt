-- ===== src/Kconfig/Assign/Choice.antt =====
-- What sym_set_tristate_value of scripts/kconfig/symbol.c changes, choices included.
use lightbuild.Prelude.{
  ◌≡◌, ◌≢◌, refl, ◌∙◌, subst, Bool, true, false, ◌&&◌, ◌||◌, some, ◌==◌, ==_iff, if◌then◌else◌,
  Bool-cases, inl, inr, List, [], ◌∷◌,
}
use lightbuild.Kconfig.Tristate.{Tristate, tri_no, tri_yes, tri_eq}
use lightbuild.Kconfig.Symbol.{Sym}
use lightbuild.Kconfig.Store.{
  among, UserSymbol, Store, update, with_set, with_changed, with_def, sym_set_changed,
}
use lightbuild.Kconfig.Assign.Ready.{
  IsIdle, update-IsIdle, mark_set-IsIdle, set_choice-IsIdle, invalidate_all-IsIdle,
}
use lightbuild.Kconfig.Assign.{
  sym_tristate_within_range, mark_set, mark_members, set_choice, invalidate_all,
  sym_clear_all_valid, assign_tristate, sym_set_tristate_value,
}

-- Every symbol has the same user value, and belongs to the same choice.
abbrev pub SameValue : UserSymbol → UserSymbol → Type 0
SameValue u v =
    (v.def_val ≡ u.def_val)
    × (v.def_tri ≡ u.def_tri)
    × (v.def_choice ≡ u.def_choice)
    × (v.choice ≡ u.choice)

abbrev pub SameValues : Store → Store → Type 0
SameValues s t = (y : Sym) → SameValue (s.get y) (t.get y)

-- A calculation keeps them, on the stores on which it may be called.
abbrev pub KeepsValues : (Sym → Store → Store) → Type 0
KeepsValues calc = (x : Sym) (s : Store) → IsIdle s → SameValues s (calc x s)

SameValues-trans : (r s t : Store) → SameValues r s → SameValues s t → SameValues r t
SameValues-trans r s t p q y =
    let (a, b, c, d) = p y in let (a', b', c', d') = q y in (a' ∙ a, b' ∙ b, c' ∙ c, d' ∙ d)

update-SameValues :
    (s : Store) (x : Sym) (f : UserSymbol → UserSymbol)
    → ((u : UserSymbol) → SameValue u (f u))
    → SameValues s (update s x f)
update-SameValues s x f keeps y = elim (Bool-cases (y == x)) [
  | inl here ↦ rw here (keeps (s.get y))
  | inr away ↦ rw away (refl, refl, refl, refl)
]

mark_set-SameValues : (x : Sym) (s : Store) → SameValues s (mark_set x s)
unfolding mark_set sym_set_changed
mark_set-SameValues x s = elim (Bool-cases (s.get x).is_set) [
  | inl set ↦ rw set (λ y. (refl, refl, refl, refl))
  | inr unset ↦ rw unset (λ y.
      SameValues-trans s (update s x with_set) (update (update s x with_set) x with_changed)
        (update-SameValues s x with_set (λ u. (refl, refl, refl, refl)))
        (update-SameValues (update s x with_set) x with_changed (λ u. (refl, refl, refl, refl))) y)
]

mark_member-SameValues :
    (b : Bool) (e : Sym) (s : Store) → SameValues s (if b then s else update s e with_set)
mark_member-SameValues true e s = λ y. (refl, refl, refl, refl)
mark_member-SameValues false e s = update-SameValues s e with_set (λ u. (refl, refl, refl, refl))

mark_members-SameValues : (es : List Sym) (s : Store) → SameValues s (mark_members es s)
unfolding mark_members
mark_members-SameValues [] s = λ y. (refl, refl, refl, refl)
mark_members-SameValues (e ∷ es) s =
    let marked = if tri_eq (s.get e).visible tri_no then s else update s e with_set in
    SameValues-trans s marked (mark_members es marked)
      (mark_member-SameValues (tri_eq (s.get e).visible tri_no) e s)
      (mark_members-SameValues es marked)

-- The tristates and strings that users have set stay; the choice has a new value.
set_choice_lem :
    (x : Sym) (s : Store)
    → ((y : Sym) → ((set_choice x s).get y).def_val ≡ (s.get y).def_val)
      × ((y : Sym) → ((set_choice x s).get y).def_tri ≡ (s.get y).def_tri)
      × (((set_choice x s).get (s.get x).choice).def_choice ≡ some x)
unfolding set_choice
set_choice_lem x s = (
  λ y. let (a, b, c, d) = members y in a ∙ vals y,
  λ y. let (a, b, c, d) = members y in b ∙ tris y,
  let (a, b, c, d) = members cs in c ∙ (rw ((==_iff cs cs).1 refl) refl),
)
  where
    cs : Sym
    cs = (s.get x).choice

    chosen : Store
    chosen = update s cs (λ u. with_set (with_def u.def_val u.def_tri (some x) u))

    members : SameValues chosen (mark_members (s.get cs).members chosen)
    members = mark_members-SameValues (s.get cs).members chosen

    vals : (y : Sym) → (chosen.get y).def_val ≡ (s.get y).def_val
    vals y = elim (Bool-cases (y == cs)) [ inl here ↦ rw here refl | inr away ↦ rw away refl ]

    tris : (y : Sym) → (chosen.get y).def_tri ≡ (s.get y).def_tri
    tris y = elim (Bool-cases (y == cs)) [ inl here ↦ rw here refl | inr away ↦ rw away refl ]

chosen_lem :
    (b : Bool) (x : Sym) (s : Store)
    → ((y : Sym) → ((if b then set_choice x s else s).get y).def_val ≡ (s.get y).def_val)
      × ((y : Sym) → ((if b then set_choice x s else s).get y).def_tri ≡ (s.get y).def_tri)
      × (b ≡ true → ((if b then set_choice x s else s).get (s.get x).choice).def_choice ≡ some x)
chosen_lem true x s = let (vals, tris, choice) = set_choice_lem x s in (vals, tris, λ e. choice)
chosen_lem false x s = (λ y. refl, λ y. refl, λ e. absurd (cc))

-- The write of the tristate.
abbrev write_tri : Sym → Tristate → Store → Store
write_tri x val s = update s x (λ u. with_def u.def_val val u.def_choice u)

write_tri_lem :
    (x : Sym) (val : Tristate) (s : Store)
    → (((write_tri x val s).get x).def_tri ≡ val)
      × ((y : Sym) → y ≢ x → ((write_tri x val s).get y).def_tri ≡ (s.get y).def_tri)
      × ((y : Sym) → ((write_tri x val s).get y).def_val ≡ (s.get y).def_val)
      × ((y : Sym) → ((write_tri x val s).get y).def_choice ≡ (s.get y).def_choice)
write_tri_lem x val s = (rw ((==_iff x x).1 refl) refl, tris, vals, choices)
  where
    tris : (y : Sym) → y ≢ x → ((write_tri x val s).get y).def_tri ≡ (s.get y).def_tri
    tris y ne = elim (Bool-cases (y == x)) [
      | inl here ↦ absurd (ne ((==_iff y x).0 here))
      | inr away ↦ rw away refl
    ]

    vals : (y : Sym) → ((write_tri x val s).get y).def_val ≡ (s.get y).def_val
    vals y = elim (Bool-cases (y == x)) [ inl here ↦ rw here refl | inr away ↦ rw away refl ]

    choices : (y : Sym) → ((write_tri x val s).get y).def_choice ≡ (s.get y).def_choice
    choices y = elim (Bool-cases (y == x)) [ inl here ↦ rw here refl | inr away ↦ rw away refl ]

-- What is assigned: the value of the symbol and, for a choice value that is set to `y`, its choice.
abbrev pub Assigned : Store → Sym → Tristate → Store → Type 0
Assigned s x val t =
    ((t.get x).def_tri ≡ val)
    × ((y : Sym) → y ≢ x → (t.get y).def_tri ≡ (s.get y).def_tri)
    × ((y : Sym) → (t.get y).def_val ≡ (s.get y).def_val)
    × ((s.get x).is_choice_value && tri_eq val tri_yes ≡ true
        → (t.get (s.get x).choice).def_choice ≡ some x)

write_tri-Assigned :
    (b : Bool) (s : Store) (x : Sym) (val : Tristate)
    → let t = write_tri x val (if b then set_choice x (mark_set x s) else mark_set x s) in
      ((t.get x).def_tri ≡ val)
      × ((y : Sym) → y ≢ x → (t.get y).def_tri ≡ (s.get y).def_tri)
      × ((y : Sym) → (t.get y).def_val ≡ (s.get y).def_val)
      × (b ≡ true → (t.get (s.get x).choice).def_choice ≡ some x)
write_tri-Assigned b s x val =
    let (here, tris, vals, choices) =
      write_tri_lem x val (if b then set_choice x (mark_set x s) else mark_set x s) in
    let (vals', tris', choice) = chosen_lem b x (mark_set x s) in
    let same = mark_set-SameValues x s in
    (
      here,
      λ y ne. let (a, m, c, d) = same y in tris y ne ∙ tris' y ∙ m,
      λ y. let (a, m, c, d) = same y in vals y ∙ vals' y ∙ a,
      λ on.
          let (a, m, c, d) = same x in
          subst
            (λ cs.
              ((write_tri x val (if b then set_choice x (mark_set x s) else mark_set x s)).get
                cs).def_choice
              ≡ some x)
            d (choices _ ∙ choice on),
    )

SameValues-Assigned :
    (s t r : Store) (x : Sym) (val : Tristate)
    → Assigned s x val t
    → SameValues t r
    → Assigned s x val r
SameValues-Assigned s t r x val (here, tris, vals, choice) same = (
  let (a, m, c, d) = same x in m ∙ here,
  λ y ne. let (a, m, c, d) = same y in m ∙ tris y ne,
  λ y. let (a, m, c, d) = same y in a ∙ vals y,
  λ on. let (a, m, c, d) = same (s.get x).choice in c ∙ choice on,
)

invalidate_all-SameValues : (s : Store) → SameValues s (invalidate_all s)
unfolding invalidate_all
invalidate_all-SameValues s y = elim (Bool-cases (among y s.symbols)) [
  | inl listed ↦ rw listed (refl, refl, refl, refl)
  | inr other ↦ rw other (refl, refl, refl, refl)
]

written-IsIdle :
    (b : Bool) (x : Sym) (val : Tristate) (s : Store)
    → IsIdle s
    → IsIdle (write_tri x val (if b then set_choice x (mark_set x s) else mark_set x s))
written-IsIdle true x val s idle =
    update-IsIdle (set_choice x (mark_set x s)) x (λ u. with_def u.def_val val u.def_choice u)
      (λ u. (refl, refl)) (set_choice-IsIdle x _ (mark_set-IsIdle x s idle))
written-IsIdle false x val s idle =
    update-IsIdle (mark_set x s) x (λ u. with_def u.def_val val u.def_choice u) (λ u. (refl, refl))
      (mark_set-IsIdle x s idle)

module _ (sym_calc_value : Sym → Store → Store) where
  clear-SameValues :
      (s : Store)
      → KeepsValues sym_calc_value
      → IsIdle s
      → SameValues s (sym_clear_all_valid sym_calc_value s)
  unfolding sym_clear_all_valid
  clear-SameValues s keeps idle =
      SameValues-trans s (invalidate_all s) (sym_calc_value s.modules_sym (invalidate_all s))
        (invalidate_all-SameValues s)
        (keeps s.modules_sym (invalidate_all s) (invalidate_all-IsIdle s idle))

  assign_tristate-Assigned :
      (s : Store) (x : Sym) (val : Tristate)
      → KeepsValues sym_calc_value
      → IsIdle s
      → Assigned s x val (assign_tristate sym_calc_value x val s)
  unfolding assign_tristate
  assign_tristate-Assigned s x val keeps idle =
      let on = (s.get x).is_choice_value && tri_eq val tri_yes in
      let chosen = if on then set_choice x (mark_set x s) else mark_set x s in
      let done = write_tri-Assigned on s x val in
      elim (Bool-cases (tri_eq (s.get x).curr.tri val)) [
        | inl same ↦ rw same done
        | inr new ↦ rw new (
            SameValues-Assigned s (write_tri x val chosen)
              (sym_clear_all_valid sym_calc_value (write_tri x val chosen)) x val done
              (clear-SameValues (write_tri x val chosen) keeps (written-IsIdle on x val s idle)))
      ]

  -- sym_set_tristate_value succeeds just where the value is the current one or within the symbol's
  -- range, and changes nothing where it fails. Where it succeeds the symbol's user value is the new
  -- one, those of the other symbols and all strings are as before, and where a choice value is set to
  -- `y` its choice has it for its value. No choice has to set its values, all symbols outside the table
  -- are calculated, and the calculation at the end keeps what users have set where that is so.
  pub sym_set_tristate_value_sound :
      (s : Store) (x : Sym) (val : Tristate)
      → KeepsValues sym_calc_value
      → IsIdle s
      → ((sym_set_tristate_value sym_calc_value s x val).ok
          ≡ (tri_eq (s.get x).curr.tri val || sym_tristate_within_range s x val))
        × ((sym_set_tristate_value sym_calc_value s x val).ok ≡ false
            → (sym_set_tristate_value sym_calc_value s x val).store ≡ s)
        × ((sym_set_tristate_value sym_calc_value s x val).ok ≡ true
            → Assigned s x val (sym_set_tristate_value sym_calc_value s x val).store)
  unfolding sym_set_tristate_value
  sym_set_tristate_value_sound s x val keeps idle =
      let done = assign_tristate-Assigned s x val keeps idle in
      elim (Bool-cases (tri_eq (s.get x).curr.tri val)) [
        | inl same ↦ rw same (refl, λ e. absurd (cc), λ e. done)
        | inr new ↦ elim (Bool-cases (sym_tristate_within_range s x val)) [
          | inl within ↦ rw new (rw within (refl, λ e. absurd (cc), λ e. done))
          | inr out ↦ rw new (rw out (refl, λ e. refl, λ e. absurd (cc)))
        ]
      ]
