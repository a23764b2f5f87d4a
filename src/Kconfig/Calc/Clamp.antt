-- ===== src/Kconfig/Calc/Clamp.antt =====
-- What sym_validate_range of scripts/kconfig/symbol.c leaves, where the symbols that it reads have been calculated.
use lightbuild.Prelude.{ℕ, ◌≡◌, ◌≢◌, Option, none, some, Bytes, leb, ltb, if◌then◌else◌}
use lightbuild.Kconfig.Symbol.{Sym}
use lightbuild.Kconfig.Strto.{strtoll, signed_key}
use lightbuild.Kconfig.Store.{Range, Store}
use lightbuild.Kconfig.Monad.{M, pure, write}
use lightbuild.Kconfig.Assign.Strings.{sym_get_range_prop, sym_get_range_val}
use lightbuild.Kconfig.Calc.Choice.{store_copy, validate_base}
use lightbuild.Kconfig.Calc.Settled.{IsSettled}

-- The number in the range that is nearest to `val`, where the range is not empty: of `long long`s.
abbrev pub clamp : ℕ → ℕ → ℕ → ℕ
clamp low high val =
    if ltb (signed_key val) (signed_key low)
    then low
    else if ltb (signed_key high) (signed_key val)
    then high
    else val

-- The value of a symbol, as a number.
abbrev pub number : ℕ → Store → Sym → ℕ
number base s x = (strtoll base (s.get x).curr.val).value

-- What the code decides on.
abbrev limit_of : ℕ → ℕ → ℕ → Option ℕ
limit_of low high val =
    if leb (signed_key low) (signed_key val)
    then if leb (signed_key val) (signed_key high) then none else some high
    else some low

-- Only the string of one symbol has changed.
abbrev pub OnlyString : Sym → Store → Store → Type 0
OnlyString x s t =
    ((y : Sym) → y ≢ x → t.get y ≡ s.get y)
    × (t.get x ≡ record (s.get x) {
      curr = record (s.get x).curr { val = (t.get x).curr.val };
      val_at = (t.get x).val_at;
    })

module _ (calc : Sym → M (Unit {0})) (s : Store) (settled : IsSettled calc s) (x : Sym)
    (prop : Range) (active : sym_get_range_prop s x ≡ some prop) where
  abbrev Validated : ℕ → Store → Type 0
  Validated base t =
      (number base t x
        ≡ clamp (sym_get_range_val s prop.low base) (sym_get_range_val s prop.high base)
            (number base s x))
      × OnlyString x s t

  -- What the loop's end does with the limit.
  abbrev put_limit : (ℕ → Bytes) → Option ℕ → M (Unit {0})
  put_limit print o = elim o [ none ↦ pure tt | some v ↦ write (store_copy x (print v)) ]

  abbrev Ends : ℕ → (ℕ → Bytes) → Type 0
  Ends base print =
      (t : Store) × (validate_base calc x base print s ≡ some (tt, t)) × Validated base t
