-- ===== src/Kconfig/Assign/Toggle.antt =====
-- sym_set_tristate_value and sym_toggle_tristate_value of scripts/kconfig/symbol.c.
use lightbuild.Prelude.{
  ℕ, suc, ◌≡◌, refl, sym, ◌∙◌, subst, List, [], ◌∷◌, Bool, true, false, ◌&&◌, some, if◌then◌else◌,
  Bool-cases, inl, inr, arith,
}
use lightbuild.Kconfig.Tristate.{Tristate, tri_no, tri_mod, tri_yes, tri_eq, tri_eq_iff}
use lightbuild.Kconfig.Symbol.{Sym}
use lightbuild.Kconfig.Store.{Store}
use lightbuild.Kconfig.Assign.{
  sym_tristate_within_range, assign_tristate, sym_set_tristate_value, next_value, toggle_loop,
  sym_toggle_tristate_value,
}

next_differs :
    (v : Tristate)
    → (tri_eq v (next_value v) ≡ false) × (tri_eq v (next_value (next_value v)) ≡ false)
next_differs v = ground arith

next_cycle : (v : Tristate) → v ≡ next_value (next_value (next_value v))
next_cycle v = ground arith

-- The other two values in the order n, m, y, n, from the one behind `old` on.
abbrev pub others : Tristate → List Tristate
others tri_no = tri_mod ∷ tri_yes ∷ []
others tri_mod = tri_yes ∷ tri_no ∷ []
others tri_yes = tri_no ∷ tri_mod ∷ []

abbrev pub first_allowed : (Tristate → Bool) → Tristate → List Tristate → Tristate
first_allowed allowed old [] = old
first_allowed allowed old (v ∷ vs) = if allowed v then v else first_allowed allowed old vs

-- The first of them that is allowed; `old` if there is none.
abbrev pub next_allowed : (Tristate → Bool) → Tristate → Tristate
next_allowed allowed old = first_allowed allowed old (others old)

next_others : (v : Tristate) → others v ≡ next_value v ∷ next_value (next_value v) ∷ []
next_others tri_no = refl
next_others tri_mod = refl
next_others tri_yes = refl

guard_open : {A : Type 0} (x y : A) (b : Bool) → (if b && false then x else y) ≡ y
guard_open x y true = refl
guard_open x y false = refl

module _ (sym_calc_value : Sym → Store → Store) where
  set_same :
      (s : Store) (x : Sym) (v : Tristate)
      → (s.get x).curr.tri ≡ v
      → sym_set_tristate_value sym_calc_value s x v
        ≡ record { ok = true; store = assign_tristate sym_calc_value x v s }
  unfolding sym_set_tristate_value
  set_same s x v e = rw ((tri_eq_iff (s.get x).curr.tri v).1 e, sym_set_tristate_value) refl

  set_within :
      (s : Store) (x : Sym) (v : Tristate)
      → sym_tristate_within_range s x v ≡ true
      → sym_set_tristate_value sym_calc_value s x v
        ≡ record { ok = true; store = assign_tristate sym_calc_value x v s }
  unfolding sym_set_tristate_value
  set_within s x v e =
      rw (e, sym_set_tristate_value)
        (guard_open _ _ (if tri_eq (s.get x).curr.tri v then false else true))

  set_refused :
      (s : Store) (x : Sym) (v : Tristate)
      → tri_eq (s.get x).curr.tri v ≡ false
      → sym_tristate_within_range s x v ≡ false
      → sym_set_tristate_value sym_calc_value s x v ≡ record { ok = false; store = s }
  unfolding sym_set_tristate_value
  set_refused s x v d e = rw (e, sym_set_tristate_value, d) refl

  toggle_sets :
      (f : ℕ) (s : Store) (x : Sym) (old new v : Tristate) (t : Store)
      → next_value new ≡ v
      → sym_set_tristate_value sym_calc_value s x v ≡ record { ok = true; store = t }
      → toggle_loop sym_calc_value (suc f) x old new s ≡ some (v, t)
  unfolding toggle_loop
  toggle_sets f s x old new v t n e = rw (n, toggle_loop) (rw (e, toggle_loop) refl)

  toggle_refused :
      (f : ℕ) (s : Store) (x : Sym) (old new : Tristate)
      → tri_eq old (next_value new) ≡ false
      → sym_set_tristate_value sym_calc_value s x (next_value new)
        ≡ record { ok = false; store = s }
      → toggle_loop sym_calc_value (suc f) x old new s
        ≡ toggle_loop sym_calc_value f x old (next_value new) s
  unfolding toggle_loop
  toggle_refused f s x old new d e = rw (e, toggle_loop) (rw (d, toggle_loop) refl)

  toggle_order :
      (s : Store) (x : Sym)
      → let old = (s.get x).curr.tri in
        let new =
          first_allowed
            (sym_tristate_within_range s x)
            old
            (next_value old ∷ next_value (next_value old) ∷ []) in
        sym_toggle_tristate_value sym_calc_value s x
        ≡ some (new, assign_tristate sym_calc_value x new s)
  unfolding sym_toggle_tristate_value
  toggle_order s x =
      let old = (s.get x).curr.tri in
      let (differs, differs2) = next_differs old in
      let within = Bool-cases (sym_tristate_within_range s x (next_value old)) in
      let within2 = Bool-cases (sym_tristate_within_range s x (next_value (next_value old))) in
      elim within [
        | inl one ↦ rw one (
            toggle_sets 2 s x old old (next_value old) _ refl (set_within s x (next_value old) one))
        | inr refused ↦
            let first_step =
              toggle_refused 2 s x old old differs
                (set_refused s x (next_value old) differs refused) in
            elim within2 [
              | inl two ↦ rw refused (
                  rw two (
                    first_step
                    ∙ toggle_sets 1 s x old (next_value old) (next_value (next_value old)) _ refl
                        (set_within s x (next_value (next_value old)) two)))
              | inr refused2 ↦ rw refused (
                  rw refused2 (
                    first_step
                    ∙ toggle_refused 1 s x old (next_value old) differs2
                        (set_refused s x (next_value (next_value old)) differs2 refused2)
                    ∙ toggle_sets 0 s x old (next_value (next_value old)) old _
                        (sym (next_cycle old)) (set_same s x old refl)))
            ]
      ]

  -- The loop of sym_toggle_tristate_value ends: it sets the symbol to the first value behind its
  -- current one, in the order n, m, y, n, that is within its range, or sets the current value again
  -- if no other one is, and returns the value it has set.
  pub sym_toggle_tristate_value_sound :
      (s : Store) (x : Sym)
      → sym_toggle_tristate_value sym_calc_value s x
        ≡ some (
          next_allowed (sym_tristate_within_range s x) (s.get x).curr.tri,
          assign_tristate sym_calc_value x
              (next_allowed (sym_tristate_within_range s x) (s.get x).curr.tri)
              s,
        )
  sym_toggle_tristate_value_sound s x =
      subst
        (λ vs.
          let new = first_allowed (sym_tristate_within_range s x) (s.get x).curr.tri vs in
          sym_toggle_tristate_value sym_calc_value s x
          ≡ some (new, assign_tristate sym_calc_value x new s))
        (sym (next_others (s.get x).curr.tri)) (toggle_order s x)
