-- ===== src/Kconfig/Lookup.antt =====
-- The table of symbols: sym_lookup and sym_find of scripts/kconfig/symbol.c.
pub mod Laws
use Prim.Native.Nat.{bit_xor, bit_and}
use lightbuild.Prelude.{
  ℕ, suc, ◌+◌, ◌-◌, ◌*◌, ◌%◌, ◌^◌, Bool, true, false, ◌&&◌, Option, none, some, List, [], ◌∷◌,
  Bytes, ltb, ◌==◌, if◌then◌else◌, streq,
}
use lightbuild.Kconfig.Symbol.{Sym, symbol_no, symbol_mod, symbol_yes}

abbrev pub symbol_const : ℕ
symbol_const = 0x0001

abbrev pub symbol_choice : ℕ
symbol_choice = 0x0010

abbrev pub symbol_hashsize : ℕ
symbol_hashsize = 9973

-- What the table holds of a symbol: its address, its name and its flags.
pub record Entry : Type 0 where
  pub address : Sym
  pub name : Option Bytes
  pub flags : ℕ

-- `symbol_hash`, and the address that the next allocation gives.
pub record SymbolTable : Type 0 where
  pub symbol_hash : ℕ → List Entry
  pub fresh : Sym

pub record Found : Type 0 where
  pub symbol : Sym
  pub table : SymbolTable

-- fnv32, on 32 bits; a `char` is signed.
unfoldable pub strhash_loop : ℕ → Bytes → ℕ
strhash_loop hash [] = hash
strhash_loop hash (c ∷ s) =
    let wide = if ltb c 128 then c else c + (2 ^ 32 - 256) in
    strhash_loop (bit_xor hash wide * 0x01000193 % 2 ^ 32) s

unfoldable pub strhash : Bytes → ℕ
unfolding strhash_loop
strhash = strhash_loop 2166136261

abbrev pub has_name : Bytes → Entry → Bool
has_name name e = elim e.name [ none ↦ false | some m ↦ streq m name ]

-- The test on the flags in sym_lookup.
abbrev pub wanted : ℕ → ℕ → Bool
wanted flags own =
    if flags == 0
    then bit_and own (symbol_const + symbol_choice) == 0
    else if bit_and own flags == 0
    then false
    else true

abbrev pub first_wanted : Bytes → ℕ → List Entry → Option Sym
first_wanted name flags [] = none
first_wanted name flags (e ∷ next) =
    if has_name name e && wanted flags e.flags then some e.address else first_wanted name flags next

abbrev pub first_variable : Bytes → List Entry → Option Sym
first_variable name [] = none
first_variable name (e ∷ next) =
    if has_name name e && bit_and e.flags symbol_const == 0
    then some e.address
    else first_variable name next

-- The names of the constant symbols.
abbrev pub constant_name : Bytes → Option Sym
constant_name [] = none
constant_name (c ∷ d ∷ ds) = none
constant_name (c ∷ []) =
    if c == b'y'
    then some symbol_yes
    else if c == b'm'
    then some symbol_mod
    else if c == b'n'
    then some symbol_no
    else none

-- The allocation, at the head of its bucket.
unfoldable pub new_symbol : SymbolTable → Option Bytes → ℕ → ℕ → Found
new_symbol t name hash flags = record {
  symbol = t.fresh;
  table = record {
    symbol_hash = λ h.
        if h == hash
        then record { address = t.fresh; name = name; flags = flags } ∷ t.symbol_hash h
        else t.symbol_hash h;
    fresh = suc t.fresh;
  };
}

abbrev pub bucket : Bytes → ℕ
bucket name = strhash name % symbol_hashsize

unfoldable pub sym_lookup : SymbolTable → Option Bytes → ℕ → Found
sym_lookup t none flags = new_symbol t none 0 flags
sym_lookup t (some name) flags = elim (constant_name name) [
  | some s ↦ record { symbol = s; table = t }
  | none ↦ elim (first_wanted name flags (t.symbol_hash (bucket name))) [
    | some s ↦ record { symbol = s; table = t }
    | none ↦ new_symbol t (some name) (bucket name) flags
  ]
]

unfoldable pub sym_find : SymbolTable → Option Bytes → Option Sym
sym_find t none = none
sym_find t (some name) = elim (constant_name name) [
  | some s ↦ some s
  | none ↦ first_variable name (t.symbol_hash (bucket name))
]
