-- ===== src/Fixdep/Config/Names.antt =====
-- The loop of parse_config_file against the names that stand at word boundaries.
use lightbuild.Prelude.{
  ℕ, zero, suc, ◌≤◌, ◌<◌, ◌≡◌, refl, sym, ap, ap₂, ◌∙◌, Bool, true, false, Option, none, some, List,
  [], ◌∷◌, ◌++◌, Bytes, length, drop, length-drop, ==_iff, if◌then◌else◌, Bool-cases, inl, inr,
  arith,
}
use lightbuild.Fixdep.Table.{Fixdep, use_config}
use lightbuild.Fixdep.Table.Set.{use_all, use_all_lem, Holds, Writes, new_lines, seen_after}
use lightbuild.Fixdep.Config.{
  is_word, config_prefix, starts_with, word_of, after_word, joins_word, option_name, use_name,
  last_or, config_loop, parse_config_file,
}

abbrev pub as_list : Bytes → List Bytes
as_list [] = []
as_list (c ∷ cs) = (c ∷ cs) ∷ []

-- The option named at a place, if CONFIG_ stands there at a word boundary.
abbrev pub name_at : Option ℕ → Bytes → List Bytes
name_at prev p =
    if starts_with p config_prefix
    then if joins_word prev then [] else as_list (option_name (word_of (drop 7 p)))
    else []

-- The options at all places.
unfoldable pub config_names : Option ℕ → Bytes → List Bytes
config_names prev [] = []
config_names prev (c ∷ cs) = name_at prev (c ∷ cs) ++ config_names (some c) cs

names_word :
    (c : ℕ) (p : Bytes)
    → is_word c ≡ true
    → config_names (some c) p ≡ config_names (some (last_or c (word_of p))) (after_word p)
unfolding config_names word_of after_word
names_word c [] h = refl
names_word c (d ∷ ds) h = elim (Bool-cases (is_word d)) [
  | inl word ↦ rw word (rw h (in_word (starts_with (d ∷ ds) config_prefix) ∙ names_word d ds word))
  | inr other ↦ rw other refl
]
  where
    in_word :
        (b : Bool) → (if b then [] else []) ++ config_names (some d) ds ≡ config_names (some d) ds
    in_word true = refl
    in_word false = refl

starts_with-append : (p d : Bytes) → starts_with p d ≡ true → p ≡ d ++ drop (length d) p
unfolding starts_with
starts_with-append p [] h = refl
starts_with-append [] (x ∷ d) h = absurd (cc)
starts_with-append (c ∷ cs) (x ∷ d) h =
    ap₂ ◌∷◌ ((==_iff c x).0 (ground arith)) (starts_with-append cs d (ground arith))

length-after_word-le : (p : Bytes) → length (after_word p) ≤ length p
unfolding after_word
length-after_word-le [] = omega arith
length-after_word-le (c ∷ cs) = ground (arith, length-after_word-le cs)

use_all-append :
    (s : Fixdep) (xs ys : List Bytes) → use_all s (xs ++ ys) ≡ use_all (use_all s xs) ys
use_all-append s [] ys = refl
use_all-append s (x ∷ xs) ys = use_all-append (use_config s x) xs ys

use_name-as_list : (s : Fixdep) (n : Bytes) → use_name s n ≡ use_all s (as_list n)
unfolding use_name
use_name-as_list s [] = refl
use_name-as_list s (c ∷ cs) = refl

-- Behind CONFIG_ the places within it name nothing.
names_prefix :
    (prev : Option ℕ) (t : Bytes)
    → config_names prev (config_prefix ++ t)
      ≡ (if joins_word prev then [] else as_list (option_name (word_of t)))
        ++ config_names (some b'_') t
unfolding config_names starts_with
names_prefix prev t = refl

names_off :
    (prev : Option ℕ) (c : ℕ) (cs : Bytes)
    → starts_with (c ∷ cs) config_prefix ≡ false
    → config_names prev (c ∷ cs) ≡ config_names (some c) cs
unfolding config_names
names_off prev c cs off = rw off refl

names_on :
    (prev : Option ℕ) (c : ℕ) (cs : Bytes)
    → starts_with (c ∷ cs) config_prefix ≡ true
    → config_names prev (c ∷ cs)
      ≡ (if joins_word prev then [] else as_list (option_name (word_of (drop 6 cs))))
        ++ config_names (some b'_') (drop 6 cs)
names_on prev c cs on =
    ap (config_names prev) (starts_with-append (c ∷ cs) config_prefix on)
    ∙ names_prefix prev (drop 6 cs)

underscore_is_word : is_word b'_' ≡ true
unfolding is_word
underscore_is_word = ground arith

pub config_loop_names :
    (f : ℕ) (prev : Option ℕ) (p : Bytes) (s : Fixdep)
    → length p < f
    → config_loop f prev p s ≡ some (use_all s (config_names prev p))
unfolding config_loop
config_loop_names zero prev p s h = absurd (omega arith)
config_loop_names (suc f) prev [] s h = unfold config_names in refl
config_loop_names (suc f) prev (c ∷ cs) s h =
    elim (Bool-cases (starts_with (c ∷ cs) config_prefix)) [
      | inl on ↦
          let t = drop 6 cs in
          let short = length-drop 6 cs in
          let names = names_on prev c cs on in
          elim (Bool-cases (joins_word prev)) [
            | inl within ↦ rw on (
                rw within (
                  config_loop_names f (some b'_') t s (omega arith)
                  ∙ ap (λ n. some (use_all s n))
                      (sym (
                        names
                        ∙ ap
                            (λ b.
                              (if b then [] else as_list (option_name (word_of t)))
                              ++ config_names (some b'_') t)
                            within))))
            | inr apart ↦
                let name = option_name (word_of t) in
                rw on (
                  rw apart (
                    config_loop_names f (some (last_or b'_' (word_of t))) (after_word t)
                      (use_name s name) (omega (arith, length-after_word-le t))
                    ∙ ap some (
                        ap₂ use_all (use_name-as_list s name)
                          (sym (names_word b'_' t underscore_is_word))
                        ∙ sym (use_all-append s (as_list name) (config_names (some b'_') t))
                        ∙ ap (use_all s) (
                            sym (
                              names
                              ∙ ap
                                  (λ b.
                                    (if b then [] else as_list name) ++ config_names (some b'_') t)
                                  apart)))))
          ]
      | inr off ↦ rw off (
          config_loop_names f (some c) cs s (omega arith)
          ∙ ap (λ n. some (use_all s n)) (sym (names_off prev c cs off)))
    ]

-- parse_config_file returns for every file. It writes, behind what is already written, one line
-- for each option that stands in the file at a word boundary and is not yet in the table, in the
-- order of first uses, and the table then holds these options too.
pub parse_config_file_sound :
    (p : Bytes) (s : Fixdep) (seen : List Bytes)
    → Holds s.hashtab seen
    → (s' : Fixdep) × (parse_config_file p s ≡ some s')
      × Writes s'
          (s.out ++ new_lines seen (config_names none p))
          (seen_after seen (config_names none p))
unfolding parse_config_file
parse_config_file_sound p s seen h = (
  use_all s (config_names none p),
  config_loop_names (suc (length p)) none p s (omega arith),
  use_all_lem s seen (config_names none p) h,
)
