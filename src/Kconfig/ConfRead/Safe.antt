-- ===== src/Kconfig/ConfRead/Safe.antt =====
-- conf_read_simple of scripts/kconfig/confdata.c on any text: it ends, and what a line can change.
use lightbuild.Prelude.{
  ℕ, zero, suc, ◌≤◌, ◌<◌, ◌≡◌, refl, ap, ◌∙◌, Bool, true, false, ◌||◌, Option, none, some, [], ◌∷◌,
  ◌++◌, Bytes, ◌==◌, ==_iff, if◌then◌else◌, Bool-cases, inl, inr, arith, first, rest, length,
  length-drop, take, drop,
}
use lightbuild.Kconfig.Tristate.{tri_mod}
use lightbuild.Kconfig.Symbol.{SymbolType, unknown, boolean, tristate, int, hex, string, Sym}
use lightbuild.Kconfig.Store.{Store}
use lightbuild.Kconfig.Lookup.{SymbolTable, sym_find}
use lightbuild.Kconfig.Escape.{Reading, ignored, invalid, text, strcspn, unquote_loop, conf_string}
use lightbuild.Kconfig.ConfValue.{
  ConfValue, kept, refused, set_tri, set_val, boolean_text, checked_text, read_text,
  conf_set_sym_val,
}
use lightbuild.Kconfig.ConfRead.{
  Reader, LineKind, skipped, unexpected, unset_symbol, set_symbol, conf_warning, write_user,
  with_tri, with_val, allocate, note_choice, take_value,
}
use lightbuild.Kconfig.ConfRead.Only.{
  Only, Only-refl, Only-trans, Only-free, write_user-Only, conf_warning-Only, note_choice-Only,
  allocate-Only,
}

length-rest : (cs : Bytes) → length (rest cs) ≤ length cs
length-rest [] = omega arith
length-rest (c ∷ cs) = omega arith

drop-shorter :
    (n : ℕ) (p : Bytes) (c : ℕ) (cs : Bytes) → drop n p ≡ c ∷ cs → length (rest cs) < length p
drop-shorter n p c cs e =
    let size : length (drop n p) ≡ suc (length cs) = ap length e in
    omega (arith, size, length-drop n p, length-rest cs)

Unquotes : ℕ → Bytes → Bytes → Type 0
Unquotes f before p2 = (r : Reading) × (unquote_loop f before p2 ≡ some r)

unquote_step :
    (f : ℕ) (before p2 : Bytes) (q : Bytes)
    → drop (strcspn p2) p2 ≡ q
    → length p2 < suc f
    → ((b p : Bytes) → length p < f → Unquotes f b p)
    → Unquotes (suc f) before p2
unfolding unquote_loop Unquotes
unquote_step f before p2 [] e h ih = (invalid, rw (unquote_loop, e) refl)
unquote_step f before p2 (c ∷ cs) e h ih = elim (Bool-cases (c == b'"')) [
  | inl quote ↦ (text (before ++ take (strcspn p2) p2), rw (unquote_loop, e) (rw quote refl))
  | inr other ↦
      let (r, more) =
        ih ((before ++ take (strcspn p2) p2) ++ take 1 cs) (rest cs)
          (omega (arith, drop-shorter (strcspn p2) p2 c cs e, h)) in
      (r, rw (unquote_loop, e) (rw other more))
]

unquote_loop-total : (f : ℕ) (before p2 : Bytes) → length p2 < f → Unquotes f before p2
unquote_loop-total zero before p2 h = absurd (omega (arith, h))
unquote_loop-total (suc f) before p2 h =
    unquote_step f before p2 (drop (strcspn p2) p2) refl h (unquote_loop-total f)

conf_string-total : (p : Bytes) → (r : Reading) × (conf_string p ≡ some r)
unfolding conf_string Unquotes
conf_string-total p = elim (Bool-cases (first p == b'"')) [
  | inl quoted ↦
      let (r, e) = unquote_loop-total (suc (length p)) [] (rest p) (omega (arith, length-rest p)) in
      (r, rw (quoted, conf_string) e)
  | inr plain ↦ (ignored, rw (plain, conf_string) refl)
]

read_text-total : (r : Reading) → (v : ConfValue) × (read_text (some r) ≡ some v)
read_text-total ignored = (kept, refl)
read_text-total invalid = (refused, refl)
read_text-total (text p) = (checked_text string p, refl)

-- The fuel of conf_set_sym_val is enough.
pub conf_set_sym_val-total :
    (type : SymbolType) (p : Bytes) → (v : ConfValue) × (conf_set_sym_val type p ≡ some v)
unfolding conf_set_sym_val
conf_set_sym_val-total string p =
    let (r, e) = conf_string-total p in let (v, h) = read_text-total r in (v, ap read_text e ∙ h)
conf_set_sym_val-total unknown p = (kept, refl)
conf_set_sym_val-total boolean p = (boolean_text p, refl)
conf_set_sym_val-total tristate p =
    (if first p == b'm' then set_tri tri_mod else boolean_text p, refl)
conf_set_sym_val-total int p = (checked_text int p, refl)
conf_set_sym_val-total hex p = (checked_text hex p, refl)

abbrev pub is_refused : Option ConfValue → Bool
is_refused (some refused) = true
is_refused _ = false

abbrev pub is_own : Sym → Store → Sym → Bool
is_own x s y = y == x || y == (s.get x).choice

-- The symbols that a line may give a new user value: the one that it names, unless the value is refused, and
-- its choice.
abbrev pub may_change : SymbolTable → LineKind → Store → Sym → Bool
may_change symbols skipped s y = false
may_change symbols unexpected s y = false
may_change symbols (unset_symbol name) s y = elim (sym_find symbols (some name)) [
  | none ↦ false
  | some x ↦ is_own x s y
]
may_change symbols (set_symbol name p) s y = elim (sym_find symbols (some name)) [
  | none ↦ false
  | some x ↦ if is_refused (conf_set_sym_val (s.get x).curr.type p) then false else is_own x s y
]

-- After a write to the symbol its choice may change.
pub noted-Only :
    (x : Sym) (q : Reader) (s : Store)
    → Only (is_own x s) s q.store
    → Only (is_own x s) s (note_choice x q).store
noted-Only x q s only =
    let (c, o, i, d) = only.fixed x in
    Only-trans (is_own x s) s q.store _ only
      (Only-free _ (is_own x s) q.store _ (λ y h. rw o (ground (arith, h))) (note_choice-Only x q))

pub is_own_lem : (x : Sym) (s : Store) → is_own x s x ≡ true
is_own_lem x s = rw ((==_iff x x).1 refl) refl

take_text-Only :
    (x : Sym) (p : Bytes) (r : Reader)
    → Only (is_own x r.store) r.store (take_value x (set_val p) r).store
take_text-Only x p r =
    let f = with_val p r.store.fresh in
    let q = allocate r in
    noted-Only x (write_user x f q) r.store (
      Only-trans _ r.store q.store _ (allocate-Only (is_own x r.store) r) (
        write_user-Only (is_own x r.store) true x f q (is_own_lem x r.store)
          (λ u. (refl, refl, refl, refl)) (λ u. (refl, refl))))

pub take_value-Only :
    (x : Sym) (v : ConfValue) (b : Bool) (r : Reader)
    → Only
        (λ y. if is_refused (some v) then false else is_own x r.store y)
        r.store
        (take_value x v (conf_warning b r)).store
take_value-Only x kept b r = noted-Only x (conf_warning b r) r.store (conf_warning-Only _ b r)
take_value-Only x refused true r = Only-refl _ r.store
take_value-Only x refused false r = Only-refl _ r.store
take_value-Only x (set_tri v) b r =
    noted-Only x (write_user x (with_tri v) (conf_warning b r)) r.store (
      write_user-Only (is_own x r.store) b x (with_tri v) r (is_own_lem x r.store)
        (λ u. (refl, refl, refl, refl)) (λ u. (refl, refl)))
take_value-Only x (set_val p) true r = take_text-Only x p (record r { warnings = suc r.warnings })
take_value-Only x (set_val p) false r = take_text-Only x p r
