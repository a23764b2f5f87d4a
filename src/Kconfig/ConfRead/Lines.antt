-- ===== src/Kconfig/ConfRead/Lines.antt =====
-- What reading finds in lines of the form that conf_write_symbol of scripts/kconfig/confdata.c writes.
use lightbuild.Prelude.{
  ℕ, ◌≡◌, refl, sym, ap, ◌∙◌, Bool, true, false, some, [], ◌∷◌, ◌++◌, Bytes, codes, ◌==◌, ==_iff,
  if◌then◌else◌, Bool-cases, inl, inr, arith, streq, strcmp, streq_iff,
}
use lightbuild.Kconfig.Store.{among}
use lightbuild.Kconfig.ConfValue.{set_line, unset_line}
use lightbuild.Kconfig.ConfRead.{
  lines_of, terminated, behind_prefix, strchr, without_return, unset_symbol, set_symbol, line_kind,
  value_text,
}

pub among-append :
    (b : ℕ) (xs ys : Bytes) → among b xs ≡ false → among b ys ≡ false → among b (xs ++ ys) ≡ false
among-append b [] ys h k = k
among-append b (x ∷ xs) ys h k = ground (arith, among-append b xs ys (ground (arith, h)) k)

-- The text ends at its first newline.
abbrev pub ends_once : Bytes → Bool
ends_once [] = false
ends_once (c ∷ cs) = if c == 10 then streq cs [] else ends_once cs

ends_once-append : (xs ys : Bytes) → among 10 xs ≡ false → ends_once (xs ++ ys) ≡ ends_once ys
ends_once-append [] ys h = refl
ends_once-append (c ∷ xs) ys h = elim (Bool-cases (c == 10)) [
  | inl end ↦ absurd (cc)
  | inr plain ↦ rw plain (ends_once-append xs ys (ground (arith, h, plain)))
]

pub lines_of-append :
    (line text : Bytes) → ends_once line ≡ true → lines_of (line ++ text) ≡ line ∷ lines_of text
unfolding lines_of
lines_of-append [] text h = absurd (cc)
lines_of-append (c ∷ line) text h = elim (Bool-cases (c == 10)) [
  | inl end ↦
      let empty = (streq_iff line []).0 (sym (rw end refl) ∙ h) in
      rw (end, empty) (ap (λ b. (b ∷ []) ∷ lines_of text) (sym ((==_iff c 10).0 end)))
  | inr plain ↦ rw plain (rw (lines_of-append line text (sym (rw plain refl) ∙ h)) refl)
]

pub terminated-text : (text : Bytes) → among 0 text ≡ false → terminated text ≡ text
unfolding terminated
terminated-text [] h = refl
terminated-text (c ∷ cs) h = elim (Bool-cases (c == 0)) [
  | inl end ↦ absurd (cc)
  | inr plain ↦ rw plain (ap (λ l. c ∷ l) (terminated-text cs (ground (arith, h, plain))))
]

pub behind_prefix-append : (p text : Bytes) → behind_prefix p (p ++ text) ≡ some text
unfolding behind_prefix
behind_prefix-append [] text = refl
behind_prefix-append (c ∷ p) text = rw ((==_iff c c).1 refl) (behind_prefix-append p text)

pub strchr-append :
    (b : ℕ) (name text : Bytes)
    → among b name ≡ false
    → strchr b (name ++ (b ∷ text)) ≡ some (name, text)
unfolding strchr
strchr-append b [] text h = rw ((==_iff b b).1 refl) refl
strchr-append b (c ∷ name) text h = elim (Bool-cases (c == b)) [
  | inl end ↦ absurd (cc)
  | inr plain ↦
      let ih = strchr-append b name text (ground (arith, h, plain)) in rw plain (rw ih refl)
]

pub without_return-text : (text : Bytes) → among 13 text ≡ false → without_return text ≡ text
unfolding without_return
without_return-text [] h = refl
without_return-text (c ∷ cs) h = elim (Bool-cases (c == 13)) [
  | inl end ↦ absurd (cc)
  | inr plain ↦ rw plain (ap (λ l. c ∷ l) (without_return-text cs (ground (arith, h, plain))))
]

-- The bytes that end a name.
pub record IsName (name : Bytes) : Type 0 where
  pub no_nul : among 0 name ≡ false
  pub no_end : among 10 name ≡ false
  pub no_space : among b' ' name ≡ false
  pub no_equals : among b'=' name ≡ false

-- A value on one line.
pub record IsValue (value : Bytes) : Type 0 where
  pub no_nul : among 0 value ≡ false
  pub no_end : among 10 value ≡ false
  pub no_return : among 13 value ≡ false

value_text_lem : (value : Bytes) → IsValue value → value_text (value ++ (10 ∷ [])) ≡ value
value_text_lem value v =
    rw (strchr-append 10 value [] v.no_end, value_text) (without_return-text value v.no_return)

pub line_kind-set_line :
    (name value : Bytes)
    → IsName name
    → IsValue value
    → line_kind (set_line name value) ≡ set_symbol name value
unfolding line_kind behind_prefix
line_kind-set_line name value n v =
    rw (strchr-append b'=' name (value ++ (10 ∷ [])) n.no_equals)
      (ap (set_symbol name) (value_text_lem value v))

pub line_kind-unset_line :
    (name : Bytes) → IsName name → line_kind (unset_line name) ≡ unset_symbol name
unfolding line_kind behind_prefix
line_kind-unset_line name n = rw (strchr-append b' ' name (codes "is not set\n") n.no_space) refl

-- Both forms are a line on its own, without a NUL.
pub set_line-ends_once :
    (name value : Bytes) → IsName name → IsValue value → ends_once (set_line name value) ≡ true
unfolding strcmp
set_line-ends_once name value n v =
    ends_once-append name (b'=' ∷ (value ++ (10 ∷ []))) n.no_end
    ∙ ends_once-append value (10 ∷ []) v.no_end

pub unset_line-ends_once : (name : Bytes) → IsName name → ends_once (unset_line name) ≡ true
unfolding strcmp
unset_line-ends_once name n = ends_once-append name (codes " is not set\n") n.no_end

pub terminated-set_line :
    (name value : Bytes)
    → IsName name
    → IsValue value
    → terminated (set_line name value) ≡ set_line name value
terminated-set_line name value n v = terminated-text (set_line name value) (
    among-append 0 name (b'=' ∷ (value ++ (10 ∷ []))) n.no_nul
      (among-append 0 value (10 ∷ []) v.no_nul refl))

pub terminated-unset_line :
    (name : Bytes) → IsName name → terminated (unset_line name) ≡ unset_line name
terminated-unset_line name n =
    terminated-text (unset_line name) (among-append 0 name (codes " is not set\n") n.no_nul refl)
