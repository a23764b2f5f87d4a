-- ===== src/Kconfig/Escape/Roundtrip.antt =====
-- A string that sym_escape_string_value quotes is read back by conf_set_sym_val.
use mathlib.Core.List.{append-nil, append_assoc}
use lightbuild.Prelude.{
  ℕ, zero, suc, ◌+◌, ◌≤◌, ◌<◌, ◌≡◌, refl, sym, ap, ◌∙◌, true, false, Option, some, [], ◌∷◌, ◌++◌,
  Bytes, length, length-append, take, drop, rest, ◌==◌, if◌then◌else◌, Bool-cases, inl, inr, arith,
}
use lightbuild.Kconfig.Escape.{
  is_special, strcspn, escape_loop, reslen_loop, escape_size, sym_escape_string_value, Reading,
  invalid, text, unquote_loop, conf_string,
}

-- The text between the quotes.
unfoldable pub escaped : Bytes → Bytes
escaped [] = []
escaped (c ∷ cs) = let more = escaped cs in if is_special c then b'\\' ∷ c ∷ more else c ∷ more

push : (x : Bytes) (c : ℕ) (y : Bytes) → x ++ (c ∷ y) ≡ (x ++ (c ∷ [])) ++ y
push x c y = sym (append_assoc x (c ∷ []) y)

strcspn_plain : (c : ℕ) (cs : Bytes) → is_special c ≡ false → strcspn (c ∷ cs) ≡ suc (strcspn cs)
unfolding strcspn
strcspn_plain c cs h = rw h refl

strcspn_special : (c : ℕ) (cs : Bytes) → is_special c ≡ true → strcspn (c ∷ cs) ≡ 0
unfolding strcspn
strcspn_special c cs h = rw h refl

abbrev escape_body : ℕ → Bytes → Bytes → Option Bytes
escape_body f plain at = elim at [
  | [] ↦ some plain
  | c ∷ cs ↦ escape_loop f (plain ++ (b'\\' ∷ c ∷ [])) cs
]

escape_plain :
    (f : ℕ) (res : Bytes) (c : ℕ) (cs : Bytes)
    → is_special c ≡ false
    → escape_loop (suc f) res (c ∷ cs) ≡ escape_loop (suc f) (res ++ (c ∷ [])) cs
unfolding escape_loop
escape_plain f res c cs h =
    ap (λ l. escape_body f (res ++ take l (c ∷ cs)) (drop l (c ∷ cs))) (strcspn_plain c cs h)
    ∙ ap (λ r. escape_body f r (drop (strcspn cs) cs)) (push res c (take (strcspn cs) cs))

escape_special :
    (f : ℕ) (res : Bytes) (c : ℕ) (cs : Bytes)
    → is_special c ≡ true
    → escape_loop (suc f) res (c ∷ cs) ≡ escape_loop f (res ++ (b'\\' ∷ c ∷ [])) cs
unfolding escape_loop
escape_special f res c cs h =
    ap (λ l. escape_body f (res ++ take l (c ∷ cs)) (drop l (c ∷ cs))) (strcspn_special c cs h)
    ∙ ap (λ r. escape_loop f (r ++ (b'\\' ∷ c ∷ [])) cs) (append-nil res)

escape_loop_lem :
    (f : ℕ) (res p : Bytes) → length p < f → escape_loop f res p ≡ some (res ++ escaped p)
unfolding escaped
escape_loop_lem zero res p h = absurd (omega arith)
escape_loop_lem (suc f) res [] h = unfold escape_loop strcspn in refl
escape_loop_lem (suc f) res (c ∷ cs) h = elim (Bool-cases (is_special c)) [
  | inl special ↦
      escape_special f res c cs special
      ∙ escape_loop_lem f (res ++ (b'\\' ∷ c ∷ [])) cs (omega arith)
      ∙ ap some
          (append_assoc res (b'\\' ∷ c ∷ []) (escaped cs) ∙ ap (λ e. res ++ e) (rw special refl))
  | inr plain ↦
      escape_plain f res c cs plain
      ∙ escape_loop_lem (suc f) (res ++ (c ∷ [])) cs (omega arith)
      ∙ ap some (append_assoc res (c ∷ []) (escaped cs) ∙ ap (λ e. res ++ e) (rw plain refl))
]

-- The first loop counts what the second one writes.
reslen_plain :
    (f n c : ℕ) (cs : Bytes)
    → is_special c ≡ false
    → reslen_loop (suc f) n (c ∷ cs) ≡ reslen_loop (suc f) n cs
unfolding reslen_loop
reslen_plain f n c cs h = rw (strcspn_plain c cs h, reslen_loop) refl

reslen_special :
    (f n c : ℕ) (cs : Bytes)
    → is_special c ≡ true
    → reslen_loop (suc f) n (c ∷ cs) ≡ reslen_loop f (suc n) cs
unfolding reslen_loop
reslen_special f n c cs h = rw (strcspn_special c cs h, reslen_loop) refl

reslen_loop_lem :
    (f n : ℕ) (p : Bytes)
    → length p < f
    → (m : ℕ) × (reslen_loop f n p ≡ some m) × (m + length p ≡ n + length (escaped p))
unfolding escaped
reslen_loop_lem zero n p h = absurd (omega arith)
reslen_loop_lem (suc f) n [] h = (n, unfold reslen_loop strcspn in refl, refl)
reslen_loop_lem (suc f) n (c ∷ cs) h = elim (Bool-cases (is_special c)) [
  | inl special ↦
      let (m, runs, size) = reslen_loop_lem f (suc n) cs (omega arith) in
      (m, reslen_special f n c cs special ∙ runs, rw special (omega (arith, size)))
  | inr plain ↦
      let (m, runs, size) = reslen_loop_lem (suc f) n cs (omega arith) in
      (m, reslen_plain f n c cs plain ∙ runs, rw plain (omega (arith, size)))
]

abbrev unquote_body : ℕ → Bytes → Bytes → Option Reading
unquote_body f plain at = elim at [
  | [] ↦ some invalid
  | c ∷ cs ↦
      let moved = unquote_loop f (plain ++ take 1 cs) (rest cs) in
      if c == b'"' then some (text plain) else moved
]

unquote_plain :
    (f : ℕ) (before : Bytes) (c : ℕ) (cs : Bytes)
    → is_special c ≡ false
    → unquote_loop (suc f) before (c ∷ cs) ≡ unquote_loop (suc f) (before ++ (c ∷ [])) cs
unfolding unquote_loop
unquote_plain f before c cs h =
    ap (λ l. unquote_body f (before ++ take l (c ∷ cs)) (drop l (c ∷ cs))) (strcspn_plain c cs h)
    ∙ ap (λ b. unquote_body f b (drop (strcspn cs) cs)) (push before c (take (strcspn cs) cs))

unquote_escape :
    (f : ℕ) (before : Bytes) (c : ℕ) (cs : Bytes)
    → unquote_loop (suc f) before (b'\\' ∷ c ∷ cs) ≡ unquote_loop f (before ++ (c ∷ [])) cs
unfolding unquote_loop strcspn is_special
unquote_escape f before c cs = rw (append-nil before) refl

unquote_end :
    (f : ℕ) (before tail : Bytes) → unquote_loop (suc f) before (b'"' ∷ tail) ≡ some (text before)
unfolding unquote_loop strcspn is_special
unquote_end f before tail = rw (append-nil before) refl

unquote_loop_lem :
    (f : ℕ) (before p tail : Bytes)
    → length p < f
    → unquote_loop f before (escaped p ++ (b'"' ∷ tail)) ≡ some (text (before ++ p))
unfolding escaped
unquote_loop_lem zero before p tail h = absurd (omega arith)
unquote_loop_lem (suc f) before [] tail h =
    unquote_end f before tail ∙ ap (λ b. some (text b)) (sym (append-nil before))
unquote_loop_lem (suc f) before (c ∷ cs) tail h = elim (Bool-cases (is_special c)) [
  | inl special ↦ rw special (
      unquote_escape f before c (escaped cs ++ (b'"' ∷ tail))
      ∙ unquote_loop_lem f (before ++ (c ∷ [])) cs tail (omega arith)
      ∙ ap (λ b. some (text b)) (append_assoc before (c ∷ []) cs))
  | inr plain ↦ rw plain (
      unquote_plain f before c (escaped cs ++ (b'"' ∷ tail)) plain
      ∙ unquote_loop_lem (suc f) (before ++ (c ∷ [])) cs tail (omega arith)
      ∙ ap (λ b. some (text b)) (append_assoc before (c ∷ []) cs))
]

length-escaped-le : (p : Bytes) → length p ≤ length (escaped p)
unfolding escaped
length-escaped-le [] = omega arith
length-escaped-le (c ∷ cs) = ground (arith, length-escaped-le cs)

-- Every string is quoted, into the number of bytes that was allocated for it and its NUL, and
-- conf_set_sym_val reads the quoted form back as that string, whatever follows it on the line.
pub conf_string-escape :
    (p tail : Bytes)
    → (res : Bytes) × (sym_escape_string_value p ≡ some res)
      × (escape_size p ≡ some (suc (length res)))
      × (conf_string (res ++ tail) ≡ some (text p))
unfolding sym_escape_string_value escape_size conf_string
conf_string-escape p tail =
    let (m, runs, size) =
      reslen_loop_lem (suc (length p)) (suc (suc (suc (length p)))) p (omega arith) in
    (
      b'"' ∷ (escaped p ++ (b'"' ∷ [])),
      rw (escape_loop_lem (suc (length p)) (b'"' ∷ []) p (omega arith), sym_escape_string_value)
          refl,
      runs ∙ ap some (omega (arith, size, length-append (escaped p) (b'"' ∷ []))),
      read _ (append_assoc (escaped p) (b'"' ∷ []) tail),
    )
  where
    read :
        (x : Bytes)
        → x ≡ escaped p ++ (b'"' ∷ tail)
        → unquote_loop (suc (suc (length x))) [] x ≡ some (text p)
    read x e = rw e (
        unquote_loop_lem (suc (suc (length (escaped p ++ (b'"' ∷ tail))))) [] p tail
          (omega (arith, length-escaped-le p, length-append (escaped p) (b'"' ∷ tail))))
