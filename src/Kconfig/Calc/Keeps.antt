-- ===== src/Kconfig/Calc/Keeps.antt =====
-- What running code over the store of scripts/kconfig/symbol.c keeps, and that it ends.
use lightbuild.Prelude.{
  ℕ, ◌+◌, ◌≤◌, ◌<◌, ◌≡◌, ◌≢◌, refl, sym, ◌∙◌, subst, Bool, true, false, some, List, [], ◌∷◌, ◌==◌,
  ==_iff, if◌then◌else◌, Bool-cases, inl, inr, arith,
}
use lightbuild.Kconfig.Tristate.{tri_mod}
use lightbuild.Kconfig.Symbol.{boolean, Sym}
use lightbuild.Kconfig.Store.{UserSymbol, Store, among}
use lightbuild.Kconfig.Monad.{M}

-- What is left to calculate of a symbol: its value, and twice the setting of its choice values.
abbrev pub left_of : UserSymbol → ℕ
left_of u = (if u.needs_choice_values then 2 else 0) + (if u.is_valid then 0 else 1)

unfoldable pub left_in : (Sym → UserSymbol) → List Sym → ℕ
left_in get [] = 0
left_in get (x ∷ xs) = left_of (get x) + left_in get xs

abbrev pub left : Store → ℕ
left s = left_in s.get s.symbols

-- Nothing is left to calculate of symbols that are not in the table, such as the constants.
abbrev pub IsClosed : Store → Type 0
IsClosed s = (x : Sym) → among x s.symbols ≡ false → left_of (s.get x) ≡ 0

-- No BOOLEAN symbol is `m`.
abbrev pub NoBooleanMod : Store → Type 0
NoBooleanMod s = (x : Sym) → (s.get x).curr.type ≡ boolean → (s.get x).curr.tri ≢ tri_mod

-- The value of a calculated symbol.
abbrev pub SameCurr : UserSymbol → UserSymbol → Type 0
SameCurr u w = (w.is_valid ≡ true) × (w.curr ≡ u.curr) × (w.curr_choice ≡ u.curr_choice)

-- No choice has to set its values.
abbrev pub NonePending : Store → Type 0
NonePending s = (x : Sym) → (s.get x).needs_choice_values ≡ false

-- The values that users have set, but for strings, and the choice that a symbol belongs to.
abbrev pub SameUser : UserSymbol → UserSymbol → Type 0
SameUser u w = (w.def_tri ≡ u.def_tri) × (w.def_choice ≡ u.def_choice) × (w.choice ≡ u.choice)

-- From `s` to `t`: the table and modules_sym are the same; no symbol has more left to calculate; a symbol that is
-- calculated, and is not among the free ones, keeps its value; types and the strings that users have
-- set stay, and the other values that they have set where no choice has to set its values; no BOOLEAN
-- symbol has become `m`.
pub record Keeps (free : Sym → Bool) (s t : Store) : Type 0 where
  pub same_symbols : t.symbols ≡ s.symbols
  pub same_modules : t.modules_sym ≡ s.modules_sym
  pub lighter : (x : Sym) → left_of (t.get x) ≤ left_of (s.get x)
  pub kept : (x : Sym) → free x ≡ false → (s.get x).is_valid ≡ true → SameCurr (s.get x) (t.get x)
  pub same_type : (x : Sym) → (t.get x).curr.type ≡ (s.get x).curr.type
  pub same_strings : (x : Sym) → (t.get x).def_val ≡ (s.get x).def_val
  pub same_users : NonePending s → (x : Sym) → SameUser (s.get x) (t.get x)
  pub no_mod : NoBooleanMod s → NoBooleanMod t

pub Keeps-refl : (free : Sym → Bool) (s : Store) → Keeps free s s
Keeps-refl free s = record {
  same_symbols = refl;
  same_modules = refl;
  lighter = λ x. omega arith;
  kept = λ x f v. (v, refl, refl);
  same_type = λ x. refl;
  same_strings = λ x. refl;
  same_users = λ p x. (refl, refl, refl);
  no_mod = λ h. h;
}

pub lighter-NonePending :
    (s t : Store)
    → ((x : Sym) → left_of (t.get x) ≤ left_of (s.get x))
    → NonePending s
    → NonePending t
lighter-NonePending s t lighter h x = ground (arith, h x, lighter x)

pub Keeps-trans :
    (free : Sym → Bool) (r s t : Store) → Keeps free r s → Keeps free s t → Keeps free r t
Keeps-trans free r s t p q = record {
  same_symbols = q.same_symbols ∙ p.same_symbols;
  same_modules = q.same_modules ∙ p.same_modules;
  lighter = λ x. omega (arith, p.lighter x, q.lighter x);
  kept = λ x f v.
      let (v', c, d) = p.kept x f v in let (v'', c', d') = q.kept x f v' in (v'', c' ∙ c, d' ∙ d);
  same_type = λ x. q.same_type x ∙ p.same_type x;
  same_strings = λ x. q.same_strings x ∙ p.same_strings x;
  same_users = λ n x.
      let (a, b, c) = p.same_users n x in
      let (a', b', c') = q.same_users (lighter-NonePending r s p.lighter n) x in
      (a' ∙ a, b' ∙ b, c' ∙ c);
  no_mod = λ h. q.no_mod (p.no_mod h);
}

-- More symbols may be free.
pub Keeps-free :
    (free more : Sym → Bool) (s t : Store)
    → ((x : Sym) → more x ≡ false → free x ≡ false)
    → Keeps free s t
    → Keeps more s t
Keeps-free free more s t less k = record {
  same_symbols = k.same_symbols;
  same_modules = k.same_modules;
  lighter = k.lighter;
  kept = λ x f v. k.kept x (less x f) v;
  same_type = k.same_type;
  same_strings = k.same_strings;
  same_users = k.same_users;
  no_mod = k.no_mod;
}

left_in-le :
    (get other : Sym → UserSymbol) (xs : List Sym)
    → ((x : Sym) → left_of (other x) ≤ left_of (get x))
    → left_in other xs ≤ left_in get xs
unfolding left_in
left_in-le get other [] h = omega arith
left_in-le get other (x ∷ xs) h = omega (arith, h x, left_in-le get other xs h)

left_in-lt :
    (get other : Sym → UserSymbol) (y : Sym) (xs : List Sym)
    → ((x : Sym) → left_of (other x) ≤ left_of (get x))
    → among y xs ≡ true
    → left_of (other y) < left_of (get y)
    → left_in other xs < left_in get xs
unfolding left_in
left_in-lt get other y [] h m lt = absurd (cc)
left_in-lt get other y (x ∷ xs) h m lt = elim (Bool-cases (x == y)) [
  | inl here ↦
      let e = (==_iff x y).0 here in
      let lt' : left_of (other x) < left_of (get x) =
        subst (λ z. left_of (other z) < left_of (get z)) (sym e) lt in
      omega (arith, lt', left_in-le get other xs h)
  | inr away ↦ omega (arith, h x, left_in-lt get other y xs h (ground (arith, away)) lt)
]

pub Keeps-left : (free : Sym → Bool) (s t : Store) → Keeps free s t → left t ≤ left s
Keeps-left free s t k =
    subst (λ xs. left_in t.get xs ≤ left s) (sym k.same_symbols)
      (left_in-le s.get t.get s.symbols k.lighter)

pub Keeps-left_lt :
    (free : Sym → Bool) (s t : Store) (y : Sym)
    → Keeps free s t
    → among y s.symbols ≡ true
    → left_of (t.get y) < left_of (s.get y)
    → left t < left s
Keeps-left_lt free s t y k m lt =
    subst (λ xs. left_in t.get xs < left s) (sym k.same_symbols)
      (left_in-lt s.get t.get y s.symbols k.lighter m lt)

pub Keeps-IsClosed : (free : Sym → Bool) (s t : Store) → Keeps free s t → IsClosed s → IsClosed t
Keeps-IsClosed free s t k closed x out =
    omega (arith, k.lighter x, closed x (subst (λ xs. among x xs ≡ false) k.same_symbols out))

-- Code that ends on stores with less than `n` left to calculate, and keeps what `Keeps` says.
pub record Runs (free : Sym → Bool) (n : ℕ) {A : Type 0} (m : M A) : Type 0 where
  pub run :
      (s : Store)
      → IsClosed s
      → left s < n
      → (a : A) × (t : Store) × (m s ≡ some (a, t)) × Keeps free s t
