-- ===== src/Fixdep/Table/Set.antt =====
-- The hash table is a set of names: use_config writes each name once.
use lightbuild.Prelude.{
  ◌≡◌, refl, sym, ap, ◌∙◌, subst, Bool, true, false, ◌||◌, List, [], ◌∷◌, ◌++◌, Bytes, codes,
  length, if◌then◌else◌, streq, streq_iff, Bool-cases, inl, inr, arith,
}
use mathlib.Core.List.{append_assoc, append-nil}
use lightbuild.Fixdep.Table.{
  HashTable, strhash, is_defined_config, define_config, print_dep, Fixdep, use_config,
}

abbrev pub member : Bytes → List Bytes → Bool
member n [] = false
member n (m ∷ ms) = streq m n || member n ms

-- The table holds exactly these names.
abbrev pub Holds : HashTable → List Bytes → Type 0
Holds t names = (n : Bytes) → is_defined_config t n (length n) (strhash n) ≡ member n names

define_lookup :
    (t : HashTable) (m n : Bytes)
    → is_defined_config (define_config t m (length m) (strhash m)) n (length n) (strhash n)
      ≡ (streq m n || is_defined_config t n (length n) (strhash n))
unfolding is_defined_config define_config
define_lookup t m n = elim (Bool-cases (streq m n)) [
  | inl same ↦ rw ((streq_iff m n).0 same) (ground (arith, (streq_iff n n).1 refl))
  | inr differ ↦ ground arith
]

define-Holds :
    (t : HashTable) (m : Bytes) (names : List Bytes)
    → Holds t names
    → Holds (define_config t m (length m) (strhash m)) (m ∷ names)
define-Holds t m names h n = define_lookup t m n ∙ ap (λ b. streq m n || b) (h n)

-- The lines for the names that are not among those seen, each once, at its first use.
unfoldable pub new_lines : List Bytes → List Bytes → Bytes
new_lines seen [] = []
new_lines seen (m ∷ ms) =
    if member m seen
    then new_lines seen ms
    else print_dep m (codes "include/config") ++ new_lines (m ∷ seen) ms

-- The names seen behind these uses.
unfoldable pub seen_after : List Bytes → List Bytes → List Bytes
seen_after seen [] = seen
seen_after seen (m ∷ ms) = seen_after (if member m seen then seen else m ∷ seen) ms

use_config_known :
    (s : Fixdep) (m : Bytes)
    → is_defined_config s.hashtab m (length m) (strhash m) ≡ true
    → use_config s m ≡ s
unfolding use_config
use_config_known s m h = rw h refl

abbrev with_new : Fixdep → Bytes → Fixdep
with_new s m = record {
  hashtab = define_config s.hashtab m (length m) (strhash m);
  out = s.out ++ print_dep m (codes "include/config");
}

use_config_new :
    (s : Fixdep) (m : Bytes)
    → is_defined_config s.hashtab m (length m) (strhash m) ≡ false
    → use_config s m ≡ with_new s m
unfolding use_config
use_config_new s m h = rw h refl

abbrev pub use_all : Fixdep → List Bytes → Fixdep
use_all s [] = s
use_all s (m ∷ ms) = use_all (use_config s m) ms

-- The output, and the names in the table.
abbrev pub Writes : Fixdep → Bytes → List Bytes → Type 0
Writes u out seen = (u.out ≡ out) × Holds u.hashtab seen

pub use_all_lem :
    (s : Fixdep) (seen ms : List Bytes)
    → Holds s.hashtab seen
    → Writes (use_all s ms) (s.out ++ new_lines seen ms) (seen_after seen ms)
unfolding new_lines seen_after
use_all_lem s seen [] h = (sym (append-nil s.out), h)
use_all_lem s seen (m ∷ ms) h = elim (Bool-cases (member m seen)) [
  | inl old ↦ rw old (
      subst (λ u. Writes (use_all u ms) (s.out ++ new_lines seen ms) (seen_after seen ms))
        (sym (use_config_known s m (h m ∙ old))) (use_all_lem s seen ms h))
  | inr new ↦
      let (out, holds) =
        use_all_lem (with_new s m) (m ∷ seen) ms (define-Holds s.hashtab m seen h) in
      rw new (
        subst
          (λ u.
            Writes (use_all u ms)
              (s.out ++ (print_dep m (codes "include/config") ++ new_lines (m ∷ seen) ms))
              (seen_after (m ∷ seen) ms))
          (sym (use_config_new s m (h m ∙ new))) (out ∙ append_assoc s.out _ _, holds))
]
