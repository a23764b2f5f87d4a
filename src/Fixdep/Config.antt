-- ===== src/Fixdep/Config.antt =====
-- parse_config_file and str_ends_with of scripts/basic/fixdep.c.
pub mod Names
use lightbuild.Prelude.{
  ℕ, zero, suc, ◌+◌, ◌-◌, Bool, true, false, ◌&&◌, ◌||◌, Option, none, some, List, [], ◌∷◌, ◌++◌,
  Bytes, codes, length, take, drop, ltb, ◌==◌, if◌then◌else◌, streq, isalnum, ◌>>=◌,
}
use lightbuild.Fixdep.Table.{Fixdep, use_config}

-- isalnum(c) || c == '_'.
unfoldable pub is_word : ℕ → Bool
is_word c = isalnum c || c == b'_'

unfoldable pub str_ends_with : Bytes → Bytes → Bool
str_ends_with s sub =
    if ltb (length s) (length sub) then false else streq (drop (length s - length sub) s) sub

abbrev pub config_prefix : Bytes
config_prefix = codes "CONFIG_"

unfoldable pub starts_with : Bytes → Bytes → Bool
starts_with s [] = true
starts_with [] (d ∷ ds) = false
starts_with (c ∷ cs) (d ∷ ds) = c == d && starts_with cs ds

-- The word characters from `p` on, and what follows them.
unfoldable pub word_of : Bytes → Bytes
word_of [] = []
word_of (c ∷ cs) = let tail = word_of cs in if is_word c then c ∷ tail else []

unfoldable pub after_word : Bytes → Bytes
after_word [] = []
after_word (c ∷ cs) = let tail = after_word cs in if is_word c then tail else c ∷ cs

-- `p[-1]`, where `p > start`.
abbrev pub joins_word : Option ℕ → Bool
joins_word none = false
joins_word (some c) = is_word c

abbrev pub module_suffix : Bytes
module_suffix = codes "_MODULE"

-- The bytes from `p` to `r`.
unfoldable pub option_name : Bytes → Bytes
option_name w = if str_ends_with w module_suffix then take (length w - 7) w else w

-- use_config where r > p.
unfoldable pub use_name : Fixdep → Bytes → Fixdep
use_name s [] = s
use_name s (c ∷ cs) = use_config s (c ∷ cs)

-- The byte before what follows a word: its last one, or the `_` of the prefix.
abbrev pub last_or : ℕ → Bytes → ℕ
last_or c [] = c
last_or c (d ∷ ds) = last_or d ds

-- The loop, from `p` with the byte before it; strstr goes on byte by byte. `none` means that the
-- fuel ran out.
unfoldable pub config_loop : ℕ → Option ℕ → Bytes → Fixdep → Option Fixdep
config_loop zero prev p s = none
config_loop (suc f) prev [] s = some s
config_loop (suc f) prev (c ∷ cs) s =
    let at_name = drop 7 (c ∷ cs) in
    let skipped = config_loop f (some b'_') at_name s in
    let name = word_of at_name in
    let used =
      config_loop f (some (last_or b'_' name)) (after_word at_name)
        (use_name s (option_name name)) in
    let moved = config_loop f (some c) cs s in
    if starts_with (c ∷ cs) config_prefix then if joins_word prev then skipped else used else moved

unfoldable pub parse_config_file : Bytes → Fixdep → Option Fixdep
parse_config_file p s = config_loop (suc (length p)) none p s
