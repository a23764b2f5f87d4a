-- ===== src/Kconfig/Calc/Rules.antt =====
-- Rules for `Runs`: one for each way in which code on the store of scripts/kconfig/symbol.c is put
-- together, and one for each kind of write.
use lightbuild.Prelude.{
  ℕ, ◌≤◌, ◌≡◌, ◌≢◌, refl, sym, ap, ◌∙◌, subst, Bool, true, false, Option, some, ◌==◌, ==_iff,
  if◌then◌else◌, Bool-cases, inl, inr, arith,
}
use lightbuild.Kconfig.Tristate.{tri_mod}
use lightbuild.Kconfig.Symbol.{boolean, Sym}
use lightbuild.Kconfig.Store.{UserSymbol, Store, update, with_changed, sym_set_changed}
use lightbuild.Kconfig.Monad.{M, pure, ◌>>=◌, ◌>>◌, read, write, set, when}
use lightbuild.Kconfig.Calc.Keeps.{
  left_of, NonePending, SameUser, SameCurr, Keeps, Keeps-refl, Keeps-trans, Keeps-left,
  Keeps-IsClosed, Runs,
}

pub bind_run :
    {A B : Type 0} (m : M A) (k : A → M B) (s t : Store) (a : A) (r : Option (B × Store))
    → m s ≡ some (a, t)
    → k a t ≡ r
    → (m >>= k) s ≡ r
unfolding ◌>>=◌
bind_run m k s t a r e h = rw (e, ◌>>=◌) h

pub set_run :
    {B : Type 0} (x : Sym) (g : UserSymbol → UserSymbol) (k : M B) (s : Store)
    (r : Option (B × Store))
    → k (update s x g) ≡ r
    → (set x g >> k) s ≡ r
unfolding set write ◌>>◌
set_run x g k s r h = bind_run (set x g) (λ _. k) s (update s x g) tt r refl h

module _ (free : Sym → Bool) (n : ℕ) where
  pub Runs-pure : {A : Type 0} (a : A) → Runs free n (pure a)
  unfolding pure
  Runs-pure a = record { run = λ s c l. (a, s, refl, Keeps-refl free s) }

  pub Runs-read : {A : Type 0} (f : Store → A) → Runs free n (read f)
  unfolding read
  Runs-read f = record { run = λ s c l. (f s, s, refl, Keeps-refl free s) }

  pub Runs-write : (f : Store → Store) → ((s : Store) → Keeps free s (f s)) → Runs free n (write f)
  unfolding write
  Runs-write f keeps = record { run = λ s c l. (tt, f s, refl, keeps s) }

  pub Runs-bind :
      {A B : Type 0} (m : M A) (k : A → M B)
      → Runs free n m
      → ((a : A) → Runs free n (k a))
      → Runs free n (m >>= k)
  Runs-bind m k hm hk = record {
    run = λ s c l.
        let (a, t, runs, keeps) = hm.run s c l in
        let (b, u, runs', keeps') =
          (hk a).run t (Keeps-IsClosed free s t keeps c)
            (omega (arith, Keeps-left free s t keeps, l)) in
        (b, u, bind_run m k s t a (some (b, u)) runs runs', Keeps-trans free s t u keeps keeps');
  }

  pub Runs-then :
      {B : Type 0} (m : M (Unit {0})) (k : M B)
      → Runs free n m
      → Runs free n k
      → Runs free n (m >> k)
  unfolding ◌>>◌
  Runs-then m k hm hk = Runs-bind m (λ _. k) hm (λ _. hk)

  pub Runs-if :
      {A : Type 0} (b : Bool) (x y : M A)
      → Runs free n x
      → Runs free n y
      → Runs free n (if b then x else y)
  Runs-if true x y hx hy = hx
  Runs-if false x y hx hy = hy

  pub Runs-when : (b : Bool) (m : M (Unit {0})) → Runs free n m → Runs free n (when b m)
  unfolding when
  Runs-when b m h = Runs-if b m (pure tt) h (Runs-pure tt)

-- What a write to the fields of a symbol must keep, but for the values that users have set.
pub record IsCalm (f : UserSymbol → UserSymbol) : Type 0 where
  pub valid : (u : UserSymbol) → (f u).is_valid ≡ u.is_valid
  pub needs : (u : UserSymbol) → (f u).needs_choice_values ≡ u.needs_choice_values
  pub curr : (u : UserSymbol) → (f u).curr ≡ u.curr
  pub choice : (u : UserSymbol) → (f u).curr_choice ≡ u.curr_choice
  pub strings : (u : UserSymbol) → (f u).def_val ≡ u.def_val

-- All that it must keep.
pub record IsQuiet (f : UserSymbol → UserSymbol) : Type 0 where
  pub valid : (u : UserSymbol) → (f u).is_valid ≡ u.is_valid
  pub needs : (u : UserSymbol) → (f u).needs_choice_values ≡ u.needs_choice_values
  pub curr : (u : UserSymbol) → (f u).curr ≡ u.curr
  pub choice : (u : UserSymbol) → (f u).curr_choice ≡ u.curr_choice
  pub strings : (u : UserSymbol) → (f u).def_val ≡ u.def_val
  pub users : (u : UserSymbol) → SameUser u (f u)

-- What a write to a free symbol must keep.
pub record IsOwn (f : UserSymbol → UserSymbol) (u : UserSymbol) : Type 0 where
  pub lighter : left_of (f u) ≤ left_of u
  pub same_type : (f u).curr.type ≡ u.curr.type
  pub strings : (f u).def_val ≡ u.def_val
  pub users : SameUser u (f u)
  pub no_mod :
      (u.curr.type ≡ boolean → u.curr.tri ≢ tri_mod)
      → u.curr.type ≡ boolean
      → (f u).curr.tri ≢ tri_mod

-- A property of the symbol that is written, and of all others.
update_case :
    (s : Store) (x : Sym) (f : UserSymbol → UserSymbol) (P : Sym → UserSymbol → UserSymbol → Type 0)
    → (P x (s.get x) (f (s.get x)))
    → ((y : Sym) → (y == x) ≡ false → P y (s.get y) (s.get y))
    → (y : Sym) → P y (s.get y) ((update s x f).get y)
update_case s x f P here away y = elim (Bool-cases (y == x)) [
  | inl same ↦ rw same (subst (λ z. P z (s.get z) (f (s.get z))) (sym ((==_iff y x).0 same)) here)
  | inr other ↦ rw other (away y other)
]

pub update-Keeps_own :
    (free : Sym → Bool) (s : Store) (x : Sym) (f : UserSymbol → UserSymbol)
    → free x ≡ true
    → IsOwn f (s.get x)
    → Keeps free s (update s x f)
update-Keeps_own free s x f own q = record {
  same_symbols = refl;
  same_modules = refl;
  lighter = update_case s x f (λ y u w. left_of w ≤ left_of u) q.lighter (λ y o. omega arith);
  kept =
      update_case s x f (λ y u w. free y ≡ false → u.is_valid ≡ true → SameCurr u w)
        (λ no_free v. absurd (ground (arith, own, no_free))) (λ y o no_free v. (v, refl, refl));
  same_type = update_case s x f (λ y u w. w.curr.type ≡ u.curr.type) q.same_type (λ y o. refl);
  same_strings = update_case s x f (λ y u w. w.def_val ≡ u.def_val) q.strings (λ y o. refl);
  same_users = λ n. update_case s x f (λ y u w. SameUser u w) q.users (λ y o. (refl, refl, refl));
  no_mod = λ h.
      update_case s x f (λ y u w. w.curr.type ≡ boolean → w.curr.tri ≢ tri_mod)
        (λ b. q.no_mod (h x) (sym q.same_type ∙ b)) (λ y o. h y);
}

pub update-Keeps_calm :
    (free : Sym → Bool) (s : Store) (x : Sym) (f : UserSymbol → UserSymbol)
    → IsCalm f
    → (NonePending s → (u : UserSymbol) → SameUser u (f u))
    → Keeps free s (update s x f)
update-Keeps_calm free s x f q users = record {
  same_symbols = refl;
  same_modules = refl;
  lighter =
      update_case s x f (λ y u w. left_of w ≤ left_of u)
        (rw (q.valid (s.get x)) (rw (q.needs (s.get x)) (omega arith))) (λ y o. omega arith);
  kept =
      update_case s x f (λ y u w. free y ≡ false → u.is_valid ≡ true → SameCurr u w)
        (λ no_free v. (q.valid (s.get x) ∙ v, q.curr (s.get x), q.choice (s.get x)))
        (λ y o no_free v. (v, refl, refl));
  same_type =
      update_case s x f (λ y u w. w.curr.type ≡ u.curr.type) (ap (λ c. c.type) (q.curr (s.get x)))
        (λ y o. refl);
  same_strings =
      update_case s x f (λ y u w. w.def_val ≡ u.def_val) (q.strings (s.get x)) (λ y o. refl);
  same_users = λ n.
      update_case s x f (λ y u w. SameUser u w) (users n (s.get x)) (λ y o. (refl, refl, refl));
  no_mod = λ h.
      update_case s x f (λ y u w. w.curr.type ≡ boolean → w.curr.tri ≢ tri_mod)
        (subst (λ c. c.type ≡ boolean → c.tri ≢ tri_mod) (sym (q.curr (s.get x))) (h x))
        (λ y o. h y);
}

pub update-Keeps :
    (free : Sym → Bool) (s : Store) (x : Sym) (f : UserSymbol → UserSymbol)
    → IsQuiet f
    → Keeps free s (update s x f)
update-Keeps free s x f q =
    update-Keeps_calm free s x f
      record {
        valid = q.valid;
        needs = q.needs;
        curr = q.curr;
        choice = q.choice;
        strings = q.strings;
      }
      (λ n. q.users)

pub sym_set_changed-Keeps :
    (free : Sym → Bool) (s : Store) (x : Sym) → Keeps free s (sym_set_changed x s)
unfolding sym_set_changed
sym_set_changed-Keeps free s x =
    let k = update-Keeps free s x with_changed record {
      valid = λ u. refl;
      needs = λ u. refl;
      curr = λ u. refl;
      choice = λ u. refl;
      strings = λ u. refl;
      users = λ u. (refl, refl, refl);
    } in
    record {
      same_symbols = k.same_symbols;
      same_modules = k.same_modules;
      lighter = k.lighter;
      kept = k.kept;
      same_type = k.same_type;
      same_strings = k.same_strings;
      same_users = k.same_users;
      no_mod = k.no_mod;
    }
