-- ===== src/Fixdep/Dep.antt =====
-- parse_dep_file, read_file and main of scripts/basic/fixdep.c. The files are a parameter: their
-- bytes, or `none` where the calls of the system fail.
pub mod Words
pub mod Pass
pub mod Ending
use lightbuild.Prelude.{
  ℕ, zero, suc, Bool, true, false, ◌&&◌, ◌||◌, Option, none, some, List, [], ◌∷◌, ◌++◌, Bytes,
  codes, length, ◌==◌, if◌then◌else◌,
}
use lightbuild.Fixdep.Table.{Fixdep}
use lightbuild.Fixdep.Config.{str_ends_with, parse_config_file}

abbrev pub Files : Type 0
Files = Bytes → Option Bytes

-- A call returns, or the program exits with a status and what it has written.
pub data Outcome {ℓ} (A : Type ℓ) : Type ℓ where
  returned : A → Outcome A
  exited : ℕ → Bytes → Outcome A

-- What follows a call.
abbrev pub on_return {ℓ} :
    {A B : Type ℓ} → Option (Outcome A) → (A → Option (Outcome B)) → Option (Outcome B)
on_return none k = none
on_return (some (exited n o)) k = some (exited n o)
on_return (some (returned a)) k = k a

-- xprintf, where the write succeeds.
unfoldable pub xprintf : Bytes → Fixdep → Fixdep
xprintf t s = record { hashtab = s.hashtab; out = s.out ++ t }

-- A buffer as a C string.
abbrev pub c_string : Bytes → Bytes
c_string [] = []
c_string (c ∷ cs) = let tail = c_string cs in if c == 0 then [] else c ∷ tail

unfoldable pub read_file : Files → Bytes → Option Bytes
read_file files name = elim (files name) [ none ↦ none | some buf ↦ some (c_string buf) ]

unfoldable pub is_ignored_file : Bytes → Bool
is_ignored_file s =
    str_ends_with s (codes "include/generated/autoconf.h")
    || str_ends_with s (codes "include/generated/autoksyms.h")

-- The two flags of parse_dep_file.
pub record Dep : Type 0 where
  pub saw_any_target : Bool
  pub is_first_dep : Bool
  pub state : Fixdep

unfoldable pub is_white : ℕ → Bool
is_white c = c == b' ' || c == b'\\' || c == 10

unfoldable pub skip_white : Bytes → Bytes
skip_white [] = []
skip_white (c ∷ cs) = let tail = skip_white cs in if is_white c then tail else c ∷ cs

-- The bytes from `m` to `p`, and from `p` on.
unfoldable pub token_of : Bytes → Bytes
token_of [] = []
token_of (c ∷ cs) = let tail = token_of cs in if is_white c then [] else c ∷ tail

unfoldable pub after_token : Bytes → Bytes
after_token [] = []
after_token (c ∷ cs) = let tail = after_token cs in if is_white c then c ∷ cs else tail

-- `p[-1] == ':'`.
unfoldable pub is_target : Bytes → Bool
is_target [] = false
is_target (c ∷ []) = c == b':'
is_target (c ∷ d ∷ ds) = is_target (d ∷ ds)

unfoldable pub source_lines : Bytes → Bytes → Bytes
source_lines target m =
    codes "source_"
    ++ target
    ++ codes " := "
    ++ m
    ++ (10 ∷ 10 ∷ codes "deps_")
    ++ target
    ++ codes " := \\\n"

-- The lines that a dependency writes before its file is read.
unfoldable pub list_dep : Bytes → Bytes → Dep → Dep
list_dep target m d =
    if d.is_first_dep
    then record {
      saw_any_target = true;
      is_first_dep = false;
      state = if d.saw_any_target then d.state else xprintf (source_lines target m) d.state;
    }
    else record {
      saw_any_target = d.saw_any_target;
      is_first_dep = false;
      state = xprintf (codes "  " ++ m ++ codes " \\\n") d.state;
    }

-- parse_config_file on the file that `m` names.
unfoldable pub read_dep : Files → Bytes → Dep → Option (Outcome Dep)
read_dep files m d = elim (read_file files m) [
  | none ↦ some (exited 2 d.state.out)
  | some buf ↦ elim (parse_config_file buf d.state) [
    | none ↦ none
    | some s ↦ some (
        returned
          record { saw_any_target = d.saw_any_target; is_first_dep = d.is_first_dep; state = s })
  ]
]

-- The body of the loop for one token.
unfoldable pub dep_token : Files → Bytes → Bytes → Dep → Option (Outcome Dep)
dep_token files target m d =
    if is_target m
    then some (
        returned record { saw_any_target = d.saw_any_target; is_first_dep = true; state = d.state })
    else if is_ignored_file m
    then some (returned d)
    else read_dep files m (list_dep target m d)

-- The loop, from `m`.
unfoldable pub dep_loop : ℕ → Files → Bytes → Bytes → Dep → Option (Outcome Dep)
dep_loop zero files target m d = none
dep_loop (suc f) files target m d = elim (skip_white m) [
  | [] ↦ some (returned d)
  | c ∷ cs ↦ on_return (dep_token files target (token_of (c ∷ cs)) d) (λ d'.
      elim (after_token (c ∷ cs)) [
        | [] ↦ some (returned d')
        | x ∷ p ↦ dep_loop f files target p d'
      ])
]

unfoldable pub rule_lines : Bytes → Bytes
rule_lines target =
    (10 ∷ target) ++ codes ": $(deps_" ++ target ++ codes ")\n\n$(deps_" ++ target ++ codes "):\n"

-- What follows the loop.
unfoldable pub dep_end : Bytes → Dep → Outcome Fixdep
dep_end target d =
    if d.saw_any_target
    then returned (xprintf (rule_lines target) d.state)
    else exited 1 d.state.out

unfoldable pub parse_dep_file : Files → Bytes → Bytes → Fixdep → Option (Outcome Fixdep)
parse_dep_file files m target s =
    on_return
      (dep_loop (suc (length m)) files target m
        record { saw_any_target = false; is_first_dep = false; state = s })
      (λ d. some (dep_end target d))

-- main, with its three arguments.
unfoldable pub main : Files → Bytes → Bytes → Bytes → Option (Outcome Fixdep)
main files depfile target cmdline =
    let s =
      xprintf (codes "cmd_" ++ target ++ codes " := " ++ cmdline ++ (10 ∷ 10 ∷ []))
        record { hashtab = λ b. []; out = [] } in
    elim (read_file files depfile) [
      | none ↦ some (exited 2 s.out)
      | some buf ↦ parse_dep_file files buf target s
    ]
