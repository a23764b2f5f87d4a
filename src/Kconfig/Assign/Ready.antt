-- ===== src/Kconfig/Assign/Ready.antt =====
-- The stores on which sym_calc_value of scripts/kconfig/symbol.c may be called, and that the setters leave one.
use lightbuild.Prelude.{
  ◌≡◌, refl, ◌∙◌, Bool, true, false, some, List, [], ◌∷◌, ◌==◌, if◌then◌else◌, Bool-cases, inl, inr,
}
use lightbuild.Kconfig.Tristate.{tri_no, tri_eq}
use lightbuild.Kconfig.Symbol.{Sym}
use lightbuild.Kconfig.Store.{
  among, UserSymbol, Store, update, with_set, with_changed, with_def, sym_set_changed,
}
use lightbuild.Kconfig.Assign.{mark_set, mark_members, set_choice, invalidate_all}
use lightbuild.Kconfig.Calc.Keeps.{IsClosed, NonePending}

-- Symbols outside the table are calculated, and no choice has to set its values.
abbrev pub IsIdle : Store → Type 0
IsIdle s = IsClosed s × NonePending s

-- The flags VALID and NEED_SET_CHOICE_VALUES are the same.
abbrev pub SameFlags : UserSymbol → UserSymbol → Type 0
SameFlags u w = (w.is_valid ≡ u.is_valid) × (w.needs_choice_values ≡ u.needs_choice_values)

pub update-IsIdle :
    (s : Store) (x : Sym) (f : UserSymbol → UserSymbol)
    → ((u : UserSymbol) → SameFlags u (f u))
    → IsIdle s
    → IsIdle (update s x f)
update-IsIdle s x f same (c, p) = (
  λ y out. elim (Bool-cases (y == x)) [
    | inl here ↦ let (v, n) = same (s.get y) in rw here (rw (v, n) (c y out))
    | inr away ↦ rw away (c y out)
  ],
  λ y. elim (Bool-cases (y == x)) [
    | inl here ↦ let (v, n) = same (s.get y) in rw here (n ∙ p y)
    | inr away ↦ rw away (p y)
  ],
)

pub mark_set-IsIdle : (x : Sym) (s : Store) → IsIdle s → IsIdle (mark_set x s)
unfolding mark_set sym_set_changed
mark_set-IsIdle x s idle = elim (Bool-cases (s.get x).is_set) [
  | inl set ↦ rw set idle
  | inr unset ↦
      let (c, p) =
        update-IsIdle (update s x with_set) x with_changed (λ u. (refl, refl))
          (update-IsIdle s x with_set (λ u. (refl, refl)) idle) in
      rw unset (c, p)
]

mark_member-IsIdle :
    (b : Bool) (e : Sym) (s : Store) → IsIdle s → IsIdle (if b then s else update s e with_set)
mark_member-IsIdle true e s idle = idle
mark_member-IsIdle false e s idle = update-IsIdle s e with_set (λ u. (refl, refl)) idle

mark_members-IsIdle : (es : List Sym) (s : Store) → IsIdle s → IsIdle (mark_members es s)
unfolding mark_members
mark_members-IsIdle [] s idle = idle
mark_members-IsIdle (e ∷ es) s idle =
    mark_members-IsIdle es _ (mark_member-IsIdle (tri_eq (s.get e).visible tri_no) e s idle)

pub set_choice-IsIdle : (x : Sym) (s : Store) → IsIdle s → IsIdle (set_choice x s)
unfolding set_choice
set_choice-IsIdle x s idle =
    let cs = (s.get x).choice in
    mark_members-IsIdle (s.get cs).members _ (
      update-IsIdle s cs (λ u. with_set (with_def u.def_val u.def_tri (some x) u))
        (λ u. (refl, refl)) idle)

pub invalidate_all-IsIdle : (s : Store) → IsIdle s → IsIdle (invalidate_all s)
unfolding invalidate_all
invalidate_all-IsIdle s (c, p) = (
  λ y out. rw out (c y out),
  λ y. elim (Bool-cases (among y s.symbols)) [
    | inl listed ↦ rw listed (p y)
    | inr other ↦ rw other (p y)
  ],
)
