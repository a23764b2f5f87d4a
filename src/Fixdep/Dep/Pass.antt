-- ===== src/Fixdep/Dep/Pass.antt =====
-- What parse_dep_file of scripts/basic/fixdep.c writes, said of the words of the dependency file.
use mathlib.Core.List.{append-nil}
use lightbuild.Prelude.{
  ◌≡◌, refl, sym, ap, ◌∙◌, Bool, true, false, ◌&&◌, ◌||◌, Option, none, some, List, [], ◌∷◌, ◌++◌,
  Bytes, codes, if◌then◌else◌, Bool-cases, inl, inr,
}
use lightbuild.Fixdep.Table.{Fixdep}
use lightbuild.Fixdep.Table.Set.{use_all}
use lightbuild.Fixdep.Config.Names.{config_names}
use lightbuild.Fixdep.Dep.{
  Files, Outcome, returned, exited, read_file, Dep, parse_dep_file, list_dep, dep_end, xprintf,
  source_lines, rule_lines,
}
use lightbuild.Fixdep.Dep.Ending.{ends_in, is_target-ends_in, is_ignored_file-ends_in}
use lightbuild.Fixdep.Dep.Words.{
  words, use_file, take_word, take_words, end_words, parse_dep_file_take,
}

abbrev pub ends_in_colon : Bytes → Bool
ends_in_colon m = ends_in m (codes ":")

abbrev pub is_generated : Bytes → Bool
is_generated m =
    ends_in m (codes "include/generated/autoconf.h")
    || ends_in m (codes "include/generated/autoksyms.h")

-- A word that names a file whose options are used.
abbrev pub is_dep : Bytes → Bool
is_dep m = if ends_in_colon m then false else if is_generated m then false else true

-- The words are those before a place, the last one first: between the last target and the place no
-- file is named.
unfoldable pub after_target : List Bytes → Bool
after_target [] = false
after_target (m ∷ before) =
    let earlier = after_target before in
    if ends_in_colon m then true else if is_dep m then false else earlier

-- One of them is the first file behind a target.
unfoldable pub has_source : List Bytes → Bool
has_source [] = false
has_source (m ∷ before) = (is_dep m && after_target before) || has_source before

-- The text for the file `m`: the source begins the list, the sources of further targets are left
-- out, each other file is an entry of the list.
unfoldable pub dep_text : Bytes → List Bytes → Bytes → Bytes
dep_text target before m =
    if after_target before
    then if has_source before
      then []
      else codes "source_"
        ++ target
        ++ codes " := "
        ++ m
        ++ codes "\n\ndeps_"
        ++ target
        ++ codes " := \\\n"
    else codes "  " ++ m ++ codes " \\\n"

abbrev pub append : Bytes → Fixdep → Fixdep
append t s = record { hashtab = s.hashtab; out = s.out ++ t }

abbrev pub with_file : Option Bytes → Fixdep → (Fixdep → Outcome Fixdep) → Outcome Fixdep
with_file none s go_on = exited 2 s.out
with_file (some buf) s go_on = go_on (use_all s (config_names none buf))

-- The run over the words that follow those of `before`.
unfoldable pub pass : Files → Bytes → List Bytes → List Bytes → Fixdep → Outcome Fixdep
pass files target before [] s =
    if has_source before
    then returned (
        append
          (codes "\n"
            ++ target
            ++ codes ": $(deps_"
            ++ target
            ++ codes ")\n\n$(deps_"
            ++ target
            ++ codes "):\n")
          s)
    else exited 1 s.out
pass files target before (m ∷ ms) s =
    if is_dep m
    then with_file (read_file files m) (append (dep_text target before m) s)
        (pass files target (m ∷ before) ms)
    else pass files target (m ∷ before) ms s

-- The state of the loop at a place: its flags are what the words before say.
abbrev at : List Bytes → Fixdep → Dep
at before s = record {
  saw_any_target = has_source before;
  is_first_dep = after_target before;
  state = s;
}

list_dep-at :
    (target m : Bytes) (before : List Bytes) (s : Fixdep)
    → ends_in_colon m ≡ false
    → is_generated m ≡ false
    → list_dep target m (at before s) ≡ at (m ∷ before) (append (dep_text target before m) s)
unfolding list_dep dep_text has_source after_target xprintf source_lines
list_dep-at target m before s t i = elim (Bool-cases (after_target before)) [
  | inr plain ↦ rw (t, i, plain) refl
  | inl behind ↦ elim (Bool-cases (has_source before)) [
    | inr new ↦ rw (t, i, behind, new) refl
    | inl known ↦
        rw (t, i, behind, known)
          (ap
            (λ o. record {
              saw_any_target = true;
              is_first_dep = false;
              state = record { hashtab = s.hashtab; out = o };
            })
            (sym (append-nil s.out)))
  ]
]

target-at :
    (m : Bytes) (before : List Bytes) (s : Fixdep)
    → ends_in_colon m ≡ true
    → at (m ∷ before) s
      ≡ record { saw_any_target = has_source before; is_first_dep = true; state = s }
unfolding has_source after_target
target-at m before s t = rw t refl

ignored-at :
    (m : Bytes) (before : List Bytes) (s : Fixdep)
    → ends_in_colon m ≡ false
    → is_generated m ≡ true
    → at (m ∷ before) s ≡ at before s
unfolding has_source after_target
ignored-at m before s t i = rw (t, i) refl

-- How the run goes on behind one word.
abbrev go_on : Files → Bytes → List Bytes → Outcome Dep → Outcome Fixdep
go_on files target ms (exited n o) = exited n o
go_on files target ms (returned d) = end_words target (take_words files target ms d)

go_on_lem :
    (files : Files) (target m : Bytes) (ms : List Bytes) (d : Dep)
    → end_words target (take_words files target (m ∷ ms) d)
      ≡ go_on files target ms (take_word files target m d)
unfolding take_words
go_on_lem files target m ms d = by (take_word files target m d)
  where
    by :
        (o : Outcome Dep)
        → end_words target
            (elim o [ returned d' ↦ take_words files target ms d' | exited n t ↦ exited n t ])
          ≡ go_on files target ms o
    by (returned d') = refl
    by (exited n t) = refl

-- The pass over the words behind a place.
abbrev Passes : Files → Bytes → List Bytes → List Bytes → Fixdep → Type 0
Passes files target before ms s =
    end_words target (take_words files target ms (at before s)) ≡ pass files target before ms s

use_file-pass :
    (files : Files) (target m : Bytes) (before ms : List Bytes) (s : Fixdep)
    → ((u : Fixdep) → Passes files target before ms u)
    → go_on files target ms (use_file files m (at before s))
      ≡ with_file (read_file files m) s (pass files target before ms)
use_file-pass files target m before ms s more = by (read_file files m)
  where
    by :
        (o : Option Bytes)
        → go_on files target ms (elim o [
          | none ↦ exited 2 s.out
          | some buf ↦ returned (at before (use_all s (config_names none buf)))
        ])
          ≡ with_file o s (pass files target before ms)
    by none = refl
    by (some buf) = more (use_all s (config_names none buf))

take_words-pass :
    (files : Files) (target : Bytes) (before ms : List Bytes) (s : Fixdep)
    → Passes files target before ms s
unfolding take_words pass take_word dep_end rule_lines xprintf
take_words-pass files target before [] s = elim (Bool-cases (has_source before)) [
  | inl found ↦ rw found refl
  | inr missing ↦ rw missing refl
]
take_words-pass files target before (m ∷ ms) s =
    go_on_lem files target m ms (at before s)
    ∙ (rw (is_target-ends_in m, is_ignored_file-ends_in m)
        (elim (Bool-cases (ends_in_colon m)) [
          | inl t ↦ rw t (
              ap (λ d. end_words target (take_words files target ms d))
                (sym (target-at m before s t))
              ∙ take_words-pass files target (m ∷ before) ms s)
          | inr f ↦ elim (Bool-cases (is_generated m)) [
            | inl i ↦
                rw (f, i)
                  (ap (λ d. end_words target (take_words files target ms d))
                      (sym (ignored-at m before s f i))
                    ∙ take_words-pass files target (m ∷ before) ms s)
            | inr read ↦
                rw (f, read)
                  (ap (λ d. go_on files target ms (use_file files m d))
                      (list_dep-at target m before s f read)
                    ∙ use_file-pass files target m (m ∷ before) ms
                        (append (dep_text target before m) s)
                        (take_words-pass files target (m ∷ before) ms))
          ]
        ]))

-- parse_dep_file always ends, and says of the blank-separated words of the dependency file: a word that ends
-- in a colon is a target, and an ignored file is passed over. The first other word behind a target is the
-- source and begins the list, further words behind targets are left out of it, and each other word is an entry
-- of it. The options of each such file are used in the order of its text. The run stops with status 2 at
-- a file that cannot be read, after the text for it; at the end the rules for the list follow, or the
-- status is 1 where there was no source.
pub parse_dep_file_sound :
    (files : Files) (m target : Bytes) (s : Fixdep)
    → parse_dep_file files m target s ≡ some (pass files target [] (words [] m) s)
unfolding has_source after_target
parse_dep_file_sound files m target s =
    parse_dep_file_take files m target s ∙ ap some (take_words-pass files target [] (words [] m) s)
