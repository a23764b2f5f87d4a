-- ===== src/Kconfig/Calc/Sound.antt =====
-- sym_calc_value of scripts/kconfig/symbol.c ends, and keeps the values that are calculated.
use lightbuild.Prelude.{
  ℕ, ◌<◌, ◌≡◌, refl, ◌∙◌, Bool, true, false, some, List, [], ◌∷◌, ◌==◌, ==_iff, if◌then◌else◌,
  Bool-cases, inl, inr, arith,
}
use lightbuild.Kconfig.Tristate.{tri_no}
use lightbuild.Kconfig.Symbol.{SymbolType, Sym}
use lightbuild.Kconfig.Store.{UserSymbol, Store, update}
use lightbuild.Kconfig.Default.{is_tristate_like}
use lightbuild.Kconfig.Monad.{M, pure, ◌>>=◌, ◌>>◌, read, write, set, when}
use lightbuild.Kconfig.Calc.{user}
use lightbuild.Kconfig.Calc.Choice.{set_all_choice_values, reset_members}
use lightbuild.Kconfig.Calc.Value.{
  Value, start_value, with_value, new_tristate, new_text, finish_value, calc_known,
}
use lightbuild.Kconfig.Calc.Keeps.{
  Keeps, Keeps-refl, Keeps-trans, Keeps-left, Keeps-IsClosed, left, IsClosed, Runs,
}
use lightbuild.Kconfig.Calc.Rules.{
  bind_run, set_run, Runs-read, Runs-bind, Runs-then, Runs-when, IsOwn, update-Keeps_calm,
  update-Keeps_own,
}
use lightbuild.Kconfig.Calc.RulesTo.{Runs-bind_to, RunsTo, RunsTo-if, RunsTo-weaken}
use lightbuild.Kconfig.Calc.Parts.{set-Runs, sym_calc_visibility-Runs}
use lightbuild.Kconfig.Calc.ChoiceParts.{set-Runs_own, sym_validate_range-Runs}
use lightbuild.Kconfig.Calc.ValueParts.{
  set_write-Runs, pass_on-Runs, note_change-Runs, take_choice-Runs, NotMod, IsNo,
  new_tristate-RunsTo, new_text-RunsTo,
}

-- The loop of set_all_choice_values leaves the flags of a symbol.
reset_members-Keeps :
    (free : Sym → Bool) (x : Sym) (es : List Sym) (s : Store)
    → (s.get x).needs_choice_values ≡ true
    → (t : Store) × (reset_members es s ≡ some (tt, t))
      × Keeps free s t
      × ((y : Sym) → (t.get y).needs_choice_values ≡ (s.get y).needs_choice_values)
unfolding reset_members ◌>>=◌ ◌>>◌ read write set when pure
reset_members-Keeps free x [] s pending = (s, refl, Keeps-refl free s, λ y. refl)
reset_members-Keeps free x (e ∷ es) s pending = elim (Bool-cases (s.get e).is_set) [
  | inl set ↦
      let (t, runs, keeps, needs) = reset_members-Keeps free x es s pending in
      (t, (rw set runs), keeps, needs)
  | inr unset ↦
      let s' = update s e (λ w. record w { def_tri = tri_no }) in
      let keep : Keeps free s s' =
        update-Keeps_calm free s e (λ w. record w { def_tri = tri_no })
          record {
            valid = λ u. refl;
            needs = λ u. refl;
            curr = λ u. refl;
            choice = λ u. refl;
            strings = λ u. refl;
          }
          (λ n. absurd (cc (n x, pending))) in
      let (t, runs, keeps, needs) = reset_members-Keeps free x es s' (same x ∙ pending) in
      (t, (rw unset runs), Keeps-trans free s s' t keep keeps, λ y. needs y ∙ same y)
]
  where
    same :
        (y : Sym)
        → ((update s e (λ w. record w { def_tri = tri_no })).get y).needs_choice_values
          ≡ (s.get y).needs_choice_values
    same y = elim (Bool-cases (y == e)) [ inl here ↦ rw here refl | inr away ↦ rw away refl ]

pending-IsOwn :
    (u : UserSymbol)
    → u.needs_choice_values ≡ true
    → IsOwn (λ w. record w { is_set = true; is_valid = false; needs_choice_values = false }) u
pending-IsOwn u e = record {
  lighter = rw e (omega arith);
  same_type = refl;
  strings = refl;
  users = (refl, refl, refl);
  no_mod = λ h. h;
}

set_all-run :
    (free : Sym → Bool) (x : Sym) (s : Store)
    → free x ≡ true
    → (s.get x).needs_choice_values ≡ true
    → (t : Store) × (set_all_choice_values x s ≡ some (tt, t)) × Keeps free s t
unfolding set_all_choice_values ◌>>◌ set write read
set_all-run free x s own needs =
    let finish_set : M (Unit {0}) =
      set x (λ w. record w { is_set = true; is_valid = false; needs_choice_values = false }) in
    let (t, runs, keeps, same) = reset_members-Keeps free x (s.get x).members s needs in
    (
      update t x (λ w. record w { is_set = true; is_valid = false; needs_choice_values = false }),
      bind_run (user x) (λ u. reset_members u.members >> finish_set) s s (s.get x) _ refl
          (bind_run (reset_members (s.get x).members) (λ _. finish_set) s t tt _ runs refl),
      Keeps-trans free s t _ keeps
          (update-Keeps_own free t x _ own (pending-IsOwn (t.get x) (same x ∙ needs))),
    )

start_value_no : (type : SymbolType) → (start_value type).tri ≡ tri_no
start_value_no type = ground arith

start-IsOwn : (type : SymbolType) (w : UserSymbol) → IsOwn (with_value (start_value type)) w
start-IsOwn type w = record {
  lighter = omega arith;
  same_type = refl;
  strings = refl;
  users = (refl, refl, refl);
  no_mod = λ h b e. cc (start_value_no type);
}

module _ (x : Sym) (n : ℕ) (calc : Sym → M (Unit {0}))
    (calc_runs : (y : Sym) → Runs (λ y. y == x) n (calc y)) where
  abbrev only_own : Sym → Bool
  only_own y = y == x

  own : only_own x ≡ true
  own = (==_iff x x).1 refl

  unwrite-Runs : Runs only_own n (set x (λ w. record w { is_write = false }))
  unwrite-Runs = set-Runs only_own n x _ record {
    valid = λ u. refl;
    needs = λ u. refl;
    curr = λ u. refl;
    choice = λ u. refl;
    strings = λ u. refl;
    users = λ u. (refl, refl, refl);
  }

  last-run :
      (s : Store) (b : Bool)
      → (s.get x).needs_choice_values ≡ b
      → (a : Unit {0}) × (t : Store) × ((user x >>= λ v.
              when v.needs_choice_values (set_all_choice_values x))
            s
          ≡ some (a, t))
        × Keeps only_own s t
  unfolding read when pure
  last-run s true e =
      let (t, runs, keeps) = set_all-run only_own x s own e in
      (tt, t, bind_run _ _ s s (s.get x) _ refl (rw e runs), keeps)
  last-run s false e = (tt, s, bind_run _ _ s s (s.get x) _ refl (rw e refl), Keeps-refl only_own s)

  last-Runs : Runs only_own n (user x >>= λ v. when v.needs_choice_values (set_all_choice_values x))
  last-Runs = record { run = λ s c l. last-run s (s.get x).needs_choice_values refl }

  finish_value-Runs : (old : UserSymbol) → Runs only_own n (finish_value calc x old)
  unfolding finish_value
  finish_value-Runs old =
      Runs-then only_own n _ _ (take_choice-Runs only_own n calc calc_runs x own) (
        Runs-then only_own n _ _ (sym_validate_range-Runs only_own n calc calc_runs x own) (
          Runs-then only_own n _ _ (note_change-Runs only_own n x old) (
            Runs-bind only_own n (user x) _ (Runs-read only_own n _) (λ u.
              Runs-then only_own n _ _
                (Runs-when only_own n _ _ (pass_on-Runs only_own n x u.members))
                (Runs-bind only_own n (user x) _ (Runs-read only_own n _) (λ v.
                  Runs-then only_own n _ _ (Runs-when only_own n _ _ unwrite-Runs) last-Runs))))))

  assign-run :
      (old : UserSymbol) (v : Value) (t : Store)
      → NotMod x v t
      → IsClosed t
      → left t < n
      → (b : Unit {0}) × (u : Store) × ((set x (with_value v) >> finish_value calc x old) t
          ≡ some (b, u))
        × Keeps only_own t u
  assign-run old v t not_mod c l =
      let keeps = update-Keeps_own only_own t x (with_value v) own record {
        lighter = omega arith;
        same_type = refl;
        strings = refl;
        users = (refl, refl, refl);
        no_mod = λ h b. not_mod b;
      } in
      let (b, u, runs, keeps') =
        (finish_value-Runs old).run _ (Keeps-IsClosed only_own t _ keeps c)
          (omega (arith, Keeps-left only_own t _ keeps, l)) in
      (
        b,
        u,
        set_run x (with_value v) (finish_value calc x old) t _ runs,
        Keeps-trans only_own t _ u keeps keeps',
      )

  new_value-RunsTo :
      (u : UserSymbol)
      → RunsTo only_own n
          (if is_tristate_like u.curr.type then new_tristate calc x else new_text calc x)
          (NotMod x)
  new_value-RunsTo u =
      RunsTo-if only_own n _ _ _ (NotMod x) (new_tristate-RunsTo only_own n calc calc_runs x) (
        RunsTo-weaken only_own n _ IsNo (NotMod x) (new_text-RunsTo only_own n calc calc_runs x)
          (λ v t none b e. cc))

  pub calc_known-Runs : (old : UserSymbol) → Runs only_own n (calc_known calc x old)
  unfolding calc_known
  calc_known-Runs old = Runs-then only_own n _ _ unwrite-Runs (
      Runs-then only_own n _ _ (sym_calc_visibility-Runs only_own n calc calc_runs x) (
        Runs-bind only_own n _ _ (Runs-read only_own n _) (λ u.
          Runs-then only_own n _ _ (Runs-when only_own n _ _ (set_write-Runs only_own n x)) (
            Runs-then only_own n _ _
              (set-Runs_own only_own n x _ own (λ w. start-IsOwn u.curr.type w))
              (Runs-bind_to only_own n _ _ (NotMod x) (new_value-RunsTo u)
                (λ v t. assign-run old v t))))))
