-- ===== src/Kconfig/ConfRead/Only.antt =====
-- What reading a line of a configuration leaves as it is.
use lightbuild.Prelude.{
  ℕ, Bytes, ◌≡◌, refl, sym, ap, ◌∙◌, subst, Bool, true, false, Option, some, ◌==◌, ==_iff,
  if◌then◌else◌, Bool-cases, inl, inr,
}
use lightbuild.Kconfig.Tristate.{Tristate, tri_no, tri_mod, tri_yes, tri_eq, expr_or}
use lightbuild.Kconfig.Symbol.{Sym}
use lightbuild.Kconfig.Store.{UserSymbol, Store, update, among}
use lightbuild.Kconfig.Assign.Ready.{SameFlags}
use lightbuild.Kconfig.ConfRead.{
  Reader, allocate, conf_warning, write_user, choose, note_choice, reset_symbols, reset_symbol,
  with_curr_val, is_freed,
}

-- What is calculated of a symbol beside its value: for a choice the chosen symbol, then the visibility
-- and the values of its dependencies.
abbrev pub derived : UserSymbol → Option Sym × Tristate × Tristate × Tristate × Tristate
derived u = (u.curr_choice, u.visible, u.dir_dep, u.rev_dep, u.implied)

abbrev pub Fixed : UserSymbol → UserSymbol → Type 0
Fixed u w =
    (w.curr ≡ u.curr)
    × (w.choice ≡ u.choice)
    × (w.is_choice_value ≡ u.is_choice_value)
    × (derived w ≡ derived u)

abbrev pub SameDef : UserSymbol → UserSymbol → Type 0
SameDef u w =
    (w.def_tri ≡ u.def_tri)
    × (w.def_val ≡ u.def_val)
    × (w.is_set ≡ u.is_set)
    × (w.def_choice ≡ u.def_choice)

-- Only the free symbols have new user values.
pub record Only (free : Sym → Bool) (s t : Store) : Type 0 where
  pub symbols : (t.symbols ≡ s.symbols) × (t.modules_sym ≡ s.modules_sym)
  pub fixed : (y : Sym) → Fixed (s.get y) (t.get y)
  pub flags : (y : Sym) → SameFlags (s.get y) (t.get y)
  pub same : (y : Sym) → free y ≡ false → SameDef (s.get y) (t.get y)

pub Only-refl : (free : Sym → Bool) (s : Store) → Only free s s
Only-refl free s = record {
  symbols = (refl, refl);
  fixed = λ y. (refl, refl, refl, refl);
  flags = λ y. (refl, refl);
  same = λ y h. (refl, refl, refl, refl);
}

pub Only-trans : (free : Sym → Bool) (r s t : Store) → Only free r s → Only free s t → Only free r t
Only-trans free r s t p q = record {
  symbols = let (a, b) = p.symbols in let (a', b') = q.symbols in (a' ∙ a, b' ∙ b);
  fixed = λ y.
      let (a, b, c, d) = p.fixed y in
      let (a', b', c', d') = q.fixed y in (a' ∙ a, b' ∙ b, c' ∙ c, d' ∙ d);
  flags = λ y. let (a, b) = p.flags y in let (a', b') = q.flags y in (a' ∙ a, b' ∙ b);
  same = λ y h.
      let (a, b, c, d) = p.same y h in
      let (a', b', c', d') = q.same y h in (a' ∙ a, b' ∙ b, c' ∙ c, d' ∙ d);
}

pub Only-free :
    (free more : Sym → Bool) (s t : Store)
    → ((y : Sym) → more y ≡ false → free y ≡ false)
    → Only free s t
    → Only more s t
Only-free free more s t less k = record {
  symbols = k.symbols;
  fixed = k.fixed;
  flags = k.flags;
  same = λ y h. k.same y (less y h);
}

pub update-Only :
    (free : Sym → Bool) (s : Store) (x : Sym) (f : UserSymbol → UserSymbol)
    → free x ≡ true
    → ((u : UserSymbol) → Fixed u (f u))
    → ((u : UserSymbol) → SameFlags u (f u))
    → Only free s (update s x f)
update-Only free s x f own fix flag = record {
  symbols = (refl, refl);
  fixed = λ y. elim (Bool-cases (y == x)) [
    | inl here ↦ rw here (fix (s.get y))
    | inr away ↦ rw away (refl, refl, refl, refl)
  ];
  flags = λ y. elim (Bool-cases (y == x)) [
    | inl here ↦ rw here (flag (s.get y))
    | inr away ↦ rw away (refl, refl)
  ];
  same = λ y h. elim (Bool-cases (y == x)) [
    | inl here ↦ absurd (cc (subst (λ z. free z ≡ false) ((==_iff y x).0 here) h, own))
    | inr away ↦ rw away (refl, refl, refl, refl)
  ];
}

pub conf_warning-Only :
    (free : Sym → Bool) (b : Bool) (r : Reader) → Only free r.store (conf_warning b r).store
conf_warning-Only free true r = Only-refl free r.store
conf_warning-Only free false r = Only-refl free r.store

pub write_user-Only :
    (free : Sym → Bool) (b : Bool) (x : Sym) (f : UserSymbol → UserSymbol) (r : Reader)
    → free x ≡ true
    → ((u : UserSymbol) → Fixed u (f u))
    → ((u : UserSymbol) → SameFlags u (f u))
    → Only free r.store (write_user x f (conf_warning b r)).store
write_user-Only free true x f r own fix flag = update-Only free r.store x f own fix flag
write_user-Only free false x f r own fix flag = update-Only free r.store x f own fix flag

choose-Only :
    (v : Tristate) (x cs : Sym) (r : Reader) → Only (λ y. y == cs) r.store (choose v x cs r).store
choose-Only tri_no x cs r = Only-refl _ r.store
choose-Only tri_yes x cs r =
    write_user-Only _ (if tri_eq (r.store.get cs).def_tri tri_no then false else true) cs
      (λ c. record c { def_choice = some x }) r ((==_iff cs cs).1 refl)
      (λ u. (refl, refl, refl, refl)) (λ u. (refl, refl))
choose-Only tri_mod x cs r = elim (Bool-cases (tri_eq (r.store.get cs).def_tri tri_yes)) [
  | inl on ↦ rw on (
      write_user-Only _ true cs (λ c. record c { is_set = false }) r ((==_iff cs cs).1 refl)
        (λ u. (refl, refl, refl, refl)) (λ u. (refl, refl)))
  | inr other ↦ rw other (Only-refl _ r.store)
]

-- Of a choice value the choice may change as well.
pub note_choice-Only :
    (x : Sym) (r : Reader) → Only (λ y. y == (r.store.get x).choice) r.store (note_choice x r).store
unfolding note_choice
note_choice-Only x r = elim (Bool-cases (r.store.get x).is_choice_value) [
  | inl value ↦
      let cs = (r.store.get x).choice in
      let chosen = choose (r.store.get x).def_tri x cs r in
      rw value (
        Only-trans _ r.store chosen.store _ (choose-Only (r.store.get x).def_tri x cs r) (
          write_user-Only _ false cs
            (λ c. record c { def_tri = expr_or c.def_tri (r.store.get x).def_tri }) chosen
            ((==_iff cs cs).1 refl) (λ u. (refl, refl, refl, refl)) (λ u. (refl, refl))))
  | inr plain ↦ rw plain (Only-refl _ r.store)
]

-- Where the string of the value has not been freed, the value is the same too.
abbrev pub FixedUnless : Bool → UserSymbol → UserSymbol → Type 0
FixedUnless gone u w =
    Fixed (with_curr_val w.curr.val u) w × (gone ≡ false → w.curr.val ≡ u.curr.val)

reset_symbol-FixedUnless :
    (listed gone : Bool) (val : Bytes) (u : UserSymbol)
    → let v = if listed then reset_symbol u else u in
      FixedUnless gone u (if gone then with_curr_val val v else v)
reset_symbol-FixedUnless true true val u = ((refl, refl, refl, refl), λ e. absurd (cc))
reset_symbol-FixedUnless true false val u = ((refl, refl, refl, refl), λ e. refl)
reset_symbol-FixedUnless false true val u = ((refl, refl, refl, refl), λ e. absurd (cc))
reset_symbol-FixedUnless false false val u = ((refl, refl, refl, refl), λ e. refl)

abbrev pub is_gone : Store → Sym → Bool
is_gone s y = is_freed s.get s.symbols (s.get y).val_at

pub reset_symbols-FixedUnless :
    (freed : ℕ → Bytes) (r : Store) (y : Sym)
    → FixedUnless (is_gone r y) (r.get y) ((reset_symbols freed r).get y)
unfolding reset_symbols
reset_symbols-FixedUnless freed r y =
    reset_symbol-FixedUnless (among y r.symbols) (is_gone r y) (freed (r.get y).val_at) (r.get y)

pub allocate-Only : (free : Sym → Bool) (r : Reader) → Only free r.store (allocate r).store
allocate-Only free r = record {
  symbols = (refl, refl);
  fixed = λ y. (refl, refl, refl, refl);
  flags = λ y. (refl, refl);
  same = λ y h. (refl, refl, refl, refl);
}

-- What is left as it is by what follows the reset.
pub FixedUnless-Fixed :
    (gone : Bool) (u v w : UserSymbol) → FixedUnless gone u v → Fixed v w → FixedUnless gone u w
FixedUnless-Fixed gone u v w ((a, b, c, d), val) (a', b', c', d') = (
  (a' ∙ a ∙ ap (λ t. (with_curr_val t u).curr) (sym (ap (λ q. q.val) a')), b' ∙ b, c' ∙ c, d' ∙ d),
  λ e. ap (λ q. q.val) a' ∙ val e,
)
