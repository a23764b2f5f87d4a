-- ===== src/Fixdep/Table.antt =====
-- The hash table of options that have been seen, and the dependency path of an option.
pub mod Set
pub mod Path
use Prim.Native.Nat.{bit_xor}
use lightbuild.Prelude.{
  ℕ, suc, ◌+◌, ◌-◌, ◌*◌, ◌%◌, ◌^◌, Bool, true, false, ◌&&◌, ◌||◌, List, [], ◌∷◌, ◌++◌, Bytes, codes,
  length, ltb, leb, ◌==◌, if◌then◌else◌, streq,
}

pub record Item : Type 0 where
  pub name : Bytes
  pub len : ℕ
  pub hash : ℕ

abbrev pub hashsz : ℕ
hashsz = 256

-- The buckets.
abbrev pub HashTable : Type 0
HashTable = ℕ → List Item

-- A `char` is signed: a byte from 128 on is widened with ones.
abbrev pub widen : ℕ → ℕ
widen c = if ltb c 128 then c else c + (2 ^ 32 - 256)

-- fnv32, on 32 bits.
unfoldable pub strhash_from : ℕ → Bytes → ℕ
strhash_from hash [] = hash
strhash_from hash (c ∷ cs) = strhash_from (bit_xor hash (widen c) * 0x01000193 % 2 ^ 32) cs

unfoldable pub strhash : Bytes → ℕ
unfolding strhash_from
strhash = strhash_from 2166136261

abbrev pub in_bucket : List Item → Bytes → ℕ → ℕ → Bool
in_bucket [] name len hash = false
in_bucket (aux ∷ next) name len hash =
    (aux.hash == hash && (aux.len == len && streq aux.name name)) || in_bucket next name len hash

unfoldable pub is_defined_config : HashTable → Bytes → ℕ → ℕ → Bool
is_defined_config t name len hash = in_bucket (t (hash % hashsz)) name len hash

unfoldable pub define_config : HashTable → Bytes → ℕ → ℕ → HashTable
define_config t name len hash b =
    if b == hash % hashsz then record { name = name; len = len; hash = hash } ∷ t b else t b

-- tolower of the C locale.
abbrev pub tolower : ℕ → ℕ
tolower c = if leb b'A' c && leb c b'Z' then c + 32 else c

-- One byte of a path, or `/` for `_`.
abbrev pub dep_byte : ℕ → ℕ
dep_byte c = if c == b'_' then b'/' else tolower c

-- The loop of print_dep: a `/` behind another one is not written.
unfoldable pub dep_path : ℕ → Bytes → Bytes
dep_path prev_c [] = []
dep_path prev_c (x ∷ xs) =
    let c = dep_byte x in
    let tail = dep_path c xs in if c == b'/' && prev_c == b'/' then tail else c ∷ tail

unfoldable pub print_dep : Bytes → Bytes → Bytes
unfolding dep_path
print_dep m dir = codes "    $(wildcard " ++ (dir ++ (b'/' ∷ (dep_path b'/' m ++ codes ".h) \\\n")))

-- `hashtab`, and what has been written to the standard output.
pub record Fixdep : Type 0 where
  pub hashtab : HashTable
  pub out : Bytes

unfoldable pub use_config : Fixdep → Bytes → Fixdep
use_config s m =
    let hash = strhash m in
    if is_defined_config s.hashtab m (length m) hash then s else record {
      hashtab = define_config s.hashtab m (length m) hash;
      out = s.out ++ print_dep m (codes "include/config");
    }
