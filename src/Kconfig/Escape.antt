-- ===== src/Kconfig/Escape.antt =====
-- Quoted strings: sym_escape_string_value of scripts/kconfig/symbol.c, which writes them, and the
-- case S_STRING of conf_set_sym_val in confdata.c, which reads them.
pub mod Roundtrip
use lightbuild.Prelude.{
  ℕ, zero, suc, Bool, true, false, ◌||◌, Option, none, some, List, [], ◌∷◌, ◌++◌, Bytes, length,
  take, drop, first, rest, ◌==◌, if◌then◌else◌,
}

-- The characters of the set "\"\\".
unfoldable pub is_special : ℕ → Bool
is_special c = c == b'"' || c == b'\\'

-- strcspn(p, "\"\\"); strpbrk stops at the same place.
unfoldable pub strcspn : Bytes → ℕ
strcspn [] = 0
strcspn (c ∷ cs) = let more = strcspn cs in if is_special c then 0 else suc more

-- The second loop, which fills `res`. `none` means that the fuel ran out.
unfoldable pub escape_loop : ℕ → Bytes → Bytes → Option Bytes
escape_loop zero res p = none
escape_loop (suc f) res p =
    let plain = res ++ take (strcspn p) p in
    elim (drop (strcspn p) p) [
      | [] ↦ some plain
      | c ∷ cs ↦ escape_loop f (plain ++ (b'\\' ∷ c ∷ [])) cs
    ]

-- The first loop, which counts the bytes of `res`.
unfoldable pub reslen_loop : ℕ → ℕ → Bytes → Option ℕ
reslen_loop zero reslen p = none
reslen_loop (suc f) reslen p = elim (drop (strcspn p) p) [
  | [] ↦ some reslen
  | c ∷ cs ↦ reslen_loop f (suc reslen) cs
]

-- The size that is allocated, with the terminating NUL.
unfoldable pub escape_size : Bytes → Option ℕ
escape_size p = reslen_loop (suc (length p)) (suc (suc (suc (length p)))) p

unfoldable pub sym_escape_string_value : Bytes → Option Bytes
sym_escape_string_value p = elim (escape_loop (suc (length p)) (b'"' ∷ []) p) [
  | none ↦ none
  | some res ↦ some (res ++ (b'"' ∷ []))
]

-- What the case S_STRING does with the text of a line: nothing, refuse it, or go on with a string.
pub data Reading : Type 0 where
  ignored invalid : Reading
  text : Bytes → Reading

-- The loop of conf_set_sym_val from `p2`, with the bytes before it.
unfoldable pub unquote_loop : ℕ → Bytes → Bytes → Option Reading
unquote_loop zero before p2 = none
unquote_loop (suc f) before p2 =
    let plain = before ++ take (strcspn p2) p2 in
    elim (drop (strcspn p2) p2) [
      | [] ↦ some invalid
      | c ∷ cs ↦
          let moved = unquote_loop f (plain ++ take 1 cs) (rest cs) in
          if c == b'"' then some (text plain) else moved
    ]

unfoldable pub conf_string : Bytes → Option Reading
conf_string p =
    let quoted = unquote_loop (suc (length p)) [] (rest p) in
    if first p == b'"' then quoted else some ignored
