-- ===== src/Fixdep/Dep/Words.antt =====
-- parse_dep_file of scripts/basic/fixdep.c as a pass over the words of the dependency file.
use mathlib.Core.List.{append-nil, append_assoc}
use lightbuild.Prelude.{
  ℕ, zero, suc, ◌≤◌, ◌<◌, ◌≡◌, refl, sym, ap, ◌∙◌, Bool, true, false, Option, none, some, List, [],
  ◌∷◌, ◌++◌, Bytes, length, first, rest, if◌then◌else◌, Bool-cases, inl, inr, arith,
}
use lightbuild.Fixdep.Table.{Fixdep}
use lightbuild.Fixdep.Table.Set.{use_all}
use lightbuild.Fixdep.Config.{parse_config_file}
use lightbuild.Fixdep.Config.Names.{config_names, config_loop_names}
use lightbuild.Fixdep.Dep.{
  Files, Outcome, returned, exited, on_return, read_file, is_ignored_file, Dep, is_white,
  skip_white, token_of, after_token, is_target, list_dep, read_dep, dep_token, dep_loop, dep_end,
  parse_dep_file,
}

abbrev pub as_word : Bytes → List Bytes
as_word [] = []
as_word (c ∷ cs) = (c ∷ cs) ∷ []

-- The words between blanks; the first one goes on from `acc`.
unfoldable pub words : Bytes → Bytes → List Bytes
words acc [] = as_word acc
words acc (c ∷ cs) = if is_white c then as_word acc ++ words [] cs else words (acc ++ (c ∷ [])) cs

words_skip : (m : Bytes) → words [] m ≡ words [] (skip_white m)
unfolding words skip_white
words_skip [] = refl
words_skip (c ∷ cs) = elim (Bool-cases (is_white c)) [
  | inl white ↦ rw white (words_skip cs)
  | inr black ↦ rw black (rw black refl)
]

words_split :
    (acc m : Bytes) → words acc m ≡ as_word (acc ++ token_of m) ++ words [] (rest (after_token m))
unfolding words token_of after_token
words_split acc [] = ap as_word (sym (append-nil acc)) ∙ sym (append-nil (as_word (acc ++ [])))
words_split acc (c ∷ cs) = elim (Bool-cases (is_white c)) [
  | inl white ↦ rw white (ap (λ a. as_word a ++ words [] cs) (sym (append-nil acc)))
  | inr black ↦ rw black (
      words_split (acc ++ (c ∷ [])) cs
      ∙ ap (λ a. as_word a ++ words [] (rest (after_token cs)))
          (append_assoc acc (c ∷ []) (token_of cs)))
]

skip_white_stops : (m : Bytes) (c : ℕ) (cs : Bytes) → skip_white m ≡ c ∷ cs → is_white c ≡ false
unfolding skip_white
skip_white_stops [] c cs h = absurd (cc)
skip_white_stops (x ∷ m) c cs h = elim (Bool-cases (is_white x)) [
  | inl white ↦ skip_white_stops m c cs (sym (skipped white) ∙ h)
  | inr black ↦ ap is_white (ap first (sym h ∙ kept black)) ∙ black
]
  where
    skipped : is_white x ≡ true → skip_white (x ∷ m) ≡ skip_white m
    skipped white = rw white refl

    kept : is_white x ≡ false → skip_white (x ∷ m) ≡ x ∷ m
    kept black = rw black refl

length-skip_white-le : (m : Bytes) → length (skip_white m) ≤ length m
unfolding skip_white
length-skip_white-le [] = omega arith
length-skip_white-le (c ∷ cs) = ground (arith, length-skip_white-le cs)

length-after_token-le : (m : Bytes) → length (after_token m) ≤ length m
unfolding after_token
length-after_token-le [] = omega arith
length-after_token-le (c ∷ cs) = ground (arith, length-after_token-le cs)

-- The first word, where the blanks before it are skipped.
words_next :
    (m : Bytes) (c : ℕ) (cs : Bytes)
    → skip_white m ≡ c ∷ cs
    → words [] m ≡ token_of (c ∷ cs) ∷ words [] (rest (after_token (c ∷ cs)))
unfolding token_of
words_next m c cs h =
    words_skip m
    ∙ ap (words []) h
    ∙ words_split [] (c ∷ cs)
    ∙ ap (λ w. w ++ words [] (rest (after_token (c ∷ cs)))) one_word
  where
    one_word : as_word (token_of (c ∷ cs)) ≡ token_of (c ∷ cs) ∷ []
    one_word = rw (skip_white_stops m c cs h) refl

words_none : (m : Bytes) → skip_white m ≡ [] → words [] m ≡ []
unfolding words
words_none m h = words_skip m ∙ ap (words []) h

-- A dependency, whose options are used in the order of its text.
abbrev pub use_file : Files → Bytes → Dep → Outcome Dep
use_file files m d = elim (read_file files m) [
  | none ↦ exited 2 d.state.out
  | some buf ↦ returned record {
    saw_any_target = d.saw_any_target;
    is_first_dep = d.is_first_dep;
    state = use_all d.state (config_names none buf);
  }
]

-- What one word does.
unfoldable pub take_word : Files → Bytes → Bytes → Dep → Outcome Dep
take_word files target m d =
    if is_target m
    then returned record { saw_any_target = d.saw_any_target; is_first_dep = true; state = d.state }
    else if is_ignored_file m
    then returned d
    else use_file files m (list_dep target m d)

-- The words in their order, up to the first file that cannot be read.
unfoldable pub take_words : Files → Bytes → List Bytes → Dep → Outcome Dep
take_words files target [] d = returned d
take_words files target (m ∷ ms) d = elim (take_word files target m d) [
  | returned d' ↦ take_words files target ms d'
  | exited n o ↦ exited n o
]

read_dep_use :
    (files : Files) (m : Bytes) (d : Dep) → read_dep files m d ≡ some (use_file files m d)
unfolding read_dep parse_config_file
read_dep_use files m d = by (read_file files m) refl
  where
    by : (r : Option Bytes) → read_file files m ≡ r → read_dep files m d ≡ some (use_file files m d)
    by none e = rw (e, read_dep, use_file) refl
    by (some buf) e =
        rw (e, read_dep, use_file)
          (rw (config_loop_names (suc (length buf)) none buf d.state (omega arith)) refl)

chosen :
    {A : Type 0} (x y z : A) (a b : Bool)
    → (if a then some x else if b then some y else some z)
      ≡ some (if a then x else if b then y else z)
chosen x y z true b = refl
chosen x y z false true = refl
chosen x y z false false = refl

dep_token_take :
    (files : Files) (target m : Bytes) (d : Dep)
    → dep_token files target m d ≡ some (take_word files target m d)
unfolding dep_token take_word
dep_token_take files target m d =
    rw (read_dep_use files m (list_dep target m d)) (chosen _ _ _ (is_target m) (is_ignored_file m))

on_return-some :
    (o : Outcome Dep) (k : Dep → Option (Outcome Dep)) (j : Dep → Outcome Dep)
    → ((d : Dep) → k d ≡ some (j d))
    → on_return (some o) k ≡ some (elim o [ returned d ↦ j d | exited n t ↦ exited n t ])
on_return-some (returned d) k j h = h d
on_return-some (exited n t) k j h = refl

-- The loop from `f` units of fuel on is the pass over the words.
abbrev Passes : ℕ → Files → Bytes → Type 0
Passes f files target =
    (m : Bytes) (d : Dep)
    → length m < f
    → dep_loop f files target m d ≡ some (take_words files target (words [] m) d)

next_pass :
    (f : ℕ) (files : Files) (target p : Bytes) (d : Dep)
    → Passes f files target
    → length p ≤ f
    → elim p [ [] ↦ some (returned d) | x ∷ q ↦ dep_loop f files target q d ]
      ≡ some (take_words files target (words [] (rest p)) d)
unfolding take_words words
next_pass f files target [] d pass le = refl
next_pass f files target (x ∷ q) d pass le = pass q d (omega arith)

pass_step :
    (f : ℕ) (files : Files) (target m : Bytes) (d : Dep) (t : Bytes)
    → Passes f files target
    → length m ≤ f
    → skip_white m ≡ t
    → dep_loop (suc f) files target m d ≡ some (take_words files target (words [] m) d)
unfolding dep_loop take_words
pass_step f files target m d [] pass le e = rw (e, dep_loop) (rw (words_none m e) refl)
pass_step f files target m d (c ∷ cs) pass le e =
    rw (e, dep_loop)
      (rw (dep_token_take files target (token_of (c ∷ cs)) d) (
        rw (words_next m c cs e) (
          on_return-some (take_word files target (token_of (c ∷ cs)) d) _ _ (λ d'.
            next_pass f files target (after_token (c ∷ cs)) d' pass (
              omega
                (arith, length-after_token-le (c ∷ cs), length-skip_white-le m, ap length e))))))

dep_loop_take : (f : ℕ) (files : Files) (target : Bytes) → Passes f files target
dep_loop_take zero files target m d h = absurd (omega arith)
dep_loop_take (suc f) files target m d h =
    pass_step f files target m d (skip_white m) (dep_loop_take f files target) (omega arith) refl

-- How the run ends behind the words.
abbrev pub end_words : Bytes → Outcome Dep → Outcome Fixdep
end_words target (exited n o) = exited n o
end_words target (returned d) = dep_end target d

-- parse_dep_file always ends.
pub parse_dep_file_take :
    (files : Files) (m target : Bytes) (s : Fixdep)
    → parse_dep_file files m target s
      ≡ some (
          end_words target (
            take_words files target
              (words [] m)
              record { saw_any_target = false; is_first_dep = false; state = s }))
unfolding parse_dep_file
parse_dep_file_take files m target s =
    rw
      (dep_loop_take (suc (length m)) files target m
        record { saw_any_target = false; is_first_dep = false; state = s } (omega arith))
      (by (take_words files target (words [] m) _))
  where
    by :
        (o : Outcome Dep)
        → on_return (some o) (λ d. some (dep_end target d)) ≡ some (end_words target o)
    by (returned d) = refl
    by (exited n t) = refl
