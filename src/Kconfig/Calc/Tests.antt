-- ===== src/Kconfig/Calc/Tests.antt =====
-- Runs of sym_calc_value and expr_calc_value on a small store of symbols.
use lightbuild.Prelude.{
  none, [], ◌∷◌, Bytes, codes, if◌then◌else◌, ◌==◌, suc, ◌≡◌, refl, true, false, some,
}
use lightbuild.Kconfig.Symbol.{Sym, int}
use lightbuild.Kconfig.Expr.{Expr, symbol, and, comp, equal}
use lightbuild.Kconfig.Expr.Value.{expr_calc_value}
use lightbuild.Kconfig.Store.{Range, UserSymbol, Store, table}
use lightbuild.Kconfig.Samples.{
  visible_symbol, two_symbols, two_symbols-IsIdle, two_symbols-left, two_symbols-NoBooleanMod,
}
use lightbuild.Kconfig.Calc.{calc_expr}
use lightbuild.Kconfig.Calc.Value.{calc_fuel}
use lightbuild.Kconfig.Calc.Keeps.{left, NoBooleanMod, SameCurr}
use lightbuild.Kconfig.Calc.Stable.{IsRead}
use lightbuild.Kconfig.Calc.Total.{
  sym_calc_value, sym_calc_value-ends, sym_calc_value_sound, sym_calc_value-NoBooleanMod,
  sym_calc_value-again,
}
use lightbuild.Kconfig.Calc.Refine.{calc_expr-expr_calc_value}

-- A symbol that is `y`, and one that equals another.
abbrev both : Expr
both = and (symbol 5) (comp equal 3 4)

calc_expr-expr_calc_value_example :
    (t : Store) × (calc_expr (calc_fuel 4) both two_symbols
      ≡ some (expr_calc_value (table t) both, t))
    × IsRead t both
    × ((y : Sym) → (two_symbols.get y).is_valid ≡ true → SameCurr (two_symbols.get y) (t.get y))
calc_expr-expr_calc_value_example =
    calc_expr-expr_calc_value 4 both two_symbols two_symbols-IsIdle.0 two_symbols-IsIdle.1
      two_symbols-left

sym_calc_value-ends_example :
    calc_fuel (suc (left two_symbols)) 5 two_symbols ≡ some (tt, sym_calc_value 5 two_symbols)
sym_calc_value-ends_example = sym_calc_value-ends 5 two_symbols two_symbols-IsIdle.0

sym_calc_value_sound_example :
    (false ≡ false → ((sym_calc_value 5 two_symbols).get 5).is_valid ≡ true)
    × ((y : Sym)
        → ((two_symbols.get y).is_valid ≡ true
            → SameCurr (two_symbols.get y) ((sym_calc_value 5 two_symbols).get y))
          × (((sym_calc_value 5 two_symbols).get y).curr.type ≡ (two_symbols.get y).curr.type)
          × (((sym_calc_value 5 two_symbols).get y).def_val ≡ (two_symbols.get y).def_val))
sym_calc_value_sound_example = sym_calc_value_sound 5 two_symbols two_symbols-IsIdle.0

sym_calc_value-NoBooleanMod_example : NoBooleanMod (sym_calc_value 5 two_symbols)
sym_calc_value-NoBooleanMod_example =
    sym_calc_value-NoBooleanMod 5 two_symbols two_symbols-IsIdle.0 two_symbols-NoBooleanMod

sym_calc_value-again_example :
    sym_calc_value 3 (sym_calc_value 3 two_symbols) ≡ sym_calc_value 3 two_symbols
sym_calc_value-again_example = sym_calc_value-again 3 two_symbols two_symbols-IsIdle.0 refl

-- INT symbols: 3 has the value 12, and a range from the value of 4 to that of 5.
abbrev limits : Range
limits = record { condition = none; low = 4; high = 5 }

abbrev number_text : Sym → Bytes
number_text y = if y == 3 then codes "12" else if y == 4 then codes "-7" else codes "7"

abbrev number_get : Sym → UserSymbol
number_get y = record (visible_symbol int (number_text y)) { is_valid = true; ranges = limits ∷ [] }

abbrev three_numbers : Store
three_numbers = record two_symbols { get = number_get }
