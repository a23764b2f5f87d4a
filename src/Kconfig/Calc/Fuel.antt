-- ===== src/Kconfig/Calc/Fuel.antt =====
-- sym_calc_value of scripts/kconfig/symbol.c ends: a call in a call has less left to calculate.
use lightbuild.Prelude.{
  ℕ, zero, suc, ◌≤◌, ◌<◌, ◌≡◌, refl, sym, subst, Bool, true, false, ◌&&◌, some, ◌==◌, ==_iff,
  if◌then◌else◌, Bool-cases, inl, inr, arith,
}
use lightbuild.Kconfig.Tristate.{tri_no}
use lightbuild.Kconfig.Symbol.{unknown, type_eq, Sym}
use lightbuild.Kconfig.Store.{UserSymbol, Store, update, among}
use lightbuild.Kconfig.Monad.{M, pure, ◌>>=◌, ◌>>◌, read, set, when}
use lightbuild.Kconfig.Calc.{user}
use lightbuild.Kconfig.Calc.Value.{
  with_value, calc_known, name_of, calc_invalid, calc_body, calc_fuel,
}
use lightbuild.Kconfig.Calc.Keeps.{
  Keeps, Keeps-refl, Keeps-trans, Keeps-free, Keeps-left, Keeps-left_lt, Keeps-IsClosed, left_of,
  left, IsClosed, Runs,
}
use lightbuild.Kconfig.Calc.Rules.{
  bind_run, set_run, Runs-read, Runs-bind, Runs-if, update-Keeps_own,
}
use lightbuild.Kconfig.Calc.ChoiceParts.{set-Runs_own}
use lightbuild.Kconfig.Calc.Sound.{calc_known-Runs}

-- No symbol is free.
abbrev pub frozen : Sym → Bool
frozen y = false

-- A symbol that is not valid keeps no value.
Keeps-frozen :
    (x : Sym) (s t : Store)
    → (s.get x).is_valid ≡ false
    → Keeps (λ y. y == x) s t
    → Keeps frozen s t
Keeps-frozen x s t invalid k = record {
  same_symbols = k.same_symbols;
  same_modules = k.same_modules;
  lighter = k.lighter;
  kept = λ y f v. elim (Bool-cases (y == x)) [
    | inl here ↦
        absurd (cc (subst (λ z. (s.get z).is_valid ≡ false) (sym ((==_iff y x).0 here)) invalid, v))
    | inr away ↦ k.kept y away v
  ];
  same_type = k.same_type;
  same_strings = k.same_strings;
  same_users = k.same_users;
  no_mod = k.no_mod;
}

abbrev mark_valid : UserSymbol → UserSymbol
mark_valid w = record w { is_valid = true }

abbrev unpend : UserSymbol → UserSymbol
unpend w = record w { needs_choice_values = false }

module _ (f : ℕ) (calc : Sym → M (Unit {0})) (ih : (y : Sym) → Runs frozen f (calc y))
    (x : Sym) where
  own-Runs : (y : Sym) → Runs (λ z. z == x) f (calc y)
  own-Runs y = record {
    run = λ s c l.
        let (a, t, runs, keeps) = (ih y).run s c l in
        (a, t, runs, Keeps-free frozen (λ z. z == x) s t (λ z h. refl) keeps);
  }

  abbrev own_run : Sym → Bool
  own_run y = y == x

  is_own : own_run x ≡ true
  is_own = (==_iff x x).1 refl

  -- The flag VALID has been set.
  marked-Runs :
      (u : UserSymbol)
      → Runs own_run f (
          user x >>= λ old.
          if type_eq u.curr.type unknown
          then set x (λ w.
            with_value (record { val = name_of w.curr.name; at = w.name_at; tri = tri_no }) w)
          else calc_known calc x old)
  marked-Runs u = Runs-bind own_run f (user x) _ (Runs-read own_run f _) (λ old.
      Runs-if own_run f _ _ _
        (set-Runs_own own_run f x _ is_own (λ w. record {
          lighter = omega arith;
          same_type = refl;
          strings = refl;
          users = (refl, refl, refl);
          no_mod = λ h b e. cc;
        }))
        (calc_known-Runs x f calc own-Runs old))

  mark-Keeps : (s : Store) → Keeps own_run s (update s x mark_valid)
  mark-Keeps s = update-Keeps_own own_run s x mark_valid is_own record {
    lighter = omega arith;
    same_type = refl;
    strings = refl;
    users = (refl, refl, refl);
    no_mod = λ h. h;
  }

  -- A symbol without choice values to set is valid once it is calculated.
  abbrev Done : Store → Store → Type 0
  Done s t = (s.get x).needs_choice_values ≡ false → left_of (t.get x) ≡ 0

  abbrev rest_of : UserSymbol → M (Unit {0})
  rest_of u = user x >>= λ old.
      if type_eq u.curr.type unknown
      then set x
          (λ w. with_value (record { val = name_of w.curr.name; at = w.name_at; tri = tri_no }) w)
      else calc_known calc x old

  marked-Done : (s t : Store) → Keeps own_run (update s x mark_valid) t → Done s t
  marked-Done s t keeps unset =
      let h =
        subst (λ b. left_of (t.get x) ≤ left_of (if b then mark_valid (s.get x) else s.get x))
          is_own (keeps.lighter x) in
      ground (arith, unset, h)

  tail-run :
      (u : UserSymbol) (s : Store)
      → IsClosed s
      → left (update s x mark_valid) < f
      → (a : Unit {0}) × (t : Store) × ((set x mark_valid >> rest_of u) s ≡ some (a, t))
        × Keeps own_run s t
        × Done s t
  tail-run u s c l =
      let keeps = mark-Keeps s in
      let (a, t, runs, keeps') =
        (marked-Runs u).run (update s x mark_valid) (Keeps-IsClosed own_run s _ keeps c) l in
      (
        a,
        t,
        set_run x mark_valid (rest_of u) s _ runs,
        Keeps-trans own_run s _ t keeps keeps',
        marked-Done s t keeps',
      )

  invalid-among : (s : Store) → IsClosed s → (s.get x).is_valid ≡ false → among x s.symbols ≡ true
  invalid-among s c invalid = elim (Bool-cases (among x s.symbols)) [
    | inl inside ↦ inside
    | inr outside ↦ absurd (ground (arith, c x outside, invalid))
  ]

  mark-left :
      (s : Store) → IsClosed s → (s.get x).is_valid ≡ false → left (update s x mark_valid) < left s
  mark-left s c invalid =
      Keeps-left_lt own_run s (update s x mark_valid) x (mark-Keeps s) (invalid-among s c invalid)
        (rw is_own (ground (arith, invalid)))

  -- The symbol is a choice value whose choice has to set its values.
  abbrev pending : UserSymbol → Bool
  pending u = u.is_choice_value && u.needs_choice_values

  unpend-Keeps : (s : Store) → Keeps own_run s (update s x unpend)
  unpend-Keeps s = update-Keeps_own own_run s x unpend is_own record {
    lighter = omega arith;
    same_type = refl;
    strings = refl;
    users = (refl, refl, refl);
    no_mod = λ h. h;
  }

  unpend-left :
      (s : Store)
      → IsClosed s
      → (s.get x).is_valid ≡ false
      → pending (s.get x) ≡ true
      → left (update s x unpend) < left s
  unpend-left s c invalid p =
      Keeps-left_lt own_run s (update s x unpend) x (unpend-Keeps s) (invalid-among s c invalid)
        (rw is_own (ground (arith, invalid, p)))

  abbrev head_of : UserSymbol → M (Unit {0})
  head_of u = when (pending u) (set x unpend >> calc u.choice)

  -- After the values of the choice have been set, less is left than before.
  head-run :
      (s : Store) (b : Bool)
      → pending (s.get x) ≡ b
      → IsClosed s
      → left s < suc f
      → (s.get x).is_valid ≡ false
      → (t : Store) × (head_of (s.get x) s ≡ some (tt, t))
        × Keeps own_run s t
        × (left (update t x mark_valid) < f)
  unfolding when pure
  head-run s false e c l invalid =
      (s, rw e refl, Keeps-refl own_run s, omega (arith, mark-left s c invalid, l))
  head-run s true e c l invalid =
      let keeps = unpend-Keeps s in
      let less = unpend-left s c invalid e in
      let (a, t, runs, keeps') =
        (own-Runs (s.get x).choice).run (update s x unpend) (Keeps-IsClosed own_run s _ keeps c)
          (omega (arith, less, l)) in
      (
        t,
        rw e (set_run x unpend (calc (s.get x).choice) s _ runs),
        Keeps-trans own_run s _ t keeps keeps',
        omega
            (arith, Keeps-left own_run t _ (mark-Keeps t), Keeps-left own_run _ t keeps', less, l),
      )

  invalid-run :
      (s : Store)
      → IsClosed s
      → left s < suc f
      → (s.get x).is_valid ≡ false
      → (a : Unit {0}) × (t : Store) × (calc_invalid calc x s ≡ some (a, t))
        × Keeps frozen s t
        × Done s t
  unfolding calc_invalid read ◌>>◌
  invalid-run s c l invalid =
      let (t, runs, keeps, less) = head-run s (pending (s.get x)) refl c l invalid in
      let (a, u, runs', keeps', done) =
        tail-run (s.get x) t (Keeps-IsClosed own_run s t keeps c) less in
      (
        a,
        u,
        bind_run (user x) (λ v. head_of v >> (set x mark_valid >> rest_of v)) s s (s.get x) _ refl
            (bind_run (head_of (s.get x)) (λ _. set x mark_valid >> rest_of (s.get x)) s t tt _ runs
              runs'),
        Keeps-frozen x s u invalid (Keeps-trans own_run s t u keeps keeps'),
        λ unset. done (ground (arith, unset, keeps.lighter x)),
      )

  body-run :
      (s : Store) (b : Bool)
      → (s.get x).is_valid ≡ b
      → IsClosed s
      → left s < suc f
      → (a : Unit {0}) × (t : Store) × (calc_body calc x s ≡ some (a, t))
        × Keeps frozen s t
        × Done s t
  unfolding calc_body read pure
  body-run s true e c l = (
    tt,
    s,
    bind_run (user x) _ s s (s.get x) _ refl (rw e refl),
    Keeps-refl frozen s,
    λ unset. ground (arith, unset, e),
  )
  body-run s false e c l =
      let (a, t, runs, keeps, done) = invalid-run s c l e in
      (a, t, bind_run (user x) _ s s (s.get x) _ refl (rw e runs), keeps, done)

-- A call ends when there is more fuel than there is left to calculate.
pub calc_fuel-run :
    (f : ℕ) (x : Sym) (s : Store)
    → IsClosed s
    → left s < f
    → (a : Unit {0}) × (t : Store) × (calc_fuel f x s ≡ some (a, t))
      × Keeps frozen s t
      × ((s.get x).needs_choice_values ≡ false → left_of (t.get x) ≡ 0)
unfolding calc_fuel
calc_fuel-run zero x s c l = absurd (omega (arith, l))
calc_fuel-run (suc f) x s c l =
    let below : (y : Sym) → Runs frozen f (calc_fuel f y) = λ y. record {
      run = λ r d k. let (a, t, runs, keeps, done) = calc_fuel-run f y r d k in (a, t, runs, keeps);
    } in
    body-run f (calc_fuel f) below x s (s.get x).is_valid refl c l
