-- ===== src/Kconfig/Expr/Tests.antt =====
-- Runs of scripts/kconfig/expr.c on a small symbol table, and the theorems at concrete inputs.
use lightbuild.Prelude.{
  zero, suc, ◌+◌, ◌≤◌, ◌<◌, ◌≡◌, ◌≢◌, ◌⊎◌, ◌↔◌, refl, Bool, true, false, arith, some, inr, ◌==◌,
}
use lightbuild.Kconfig.Tristate.{tri_no, tri_mod, rank, tri_eq}
use lightbuild.Kconfig.Symbol.{Sym, symbol_no, symbol_mod, symbol_yes, sym_get_string_value}
use lightbuild.Kconfig.Expr.{
  equal, unequal, Expr, symbol, not, and, or, comp, size, expr_contains_symbol, expr_depends_symbol,
  expr_is_yes,
}
use lightbuild.Kconfig.Expr.Samples.{
  sym_a, sym_b, sample_get, sample, sample-IsCalculated, sample-IsTyped, sample-ConstantsDiffer,
}
use lightbuild.Kconfig.Expr.Value.{
  expr_calc_value, calc_value, symbol_order, holds, value_order, expr_parse_string,
}
use lightbuild.Kconfig.Expr.Value.Constants.{symbol_order-constant}
use lightbuild.Kconfig.Expr.Yn.{expr_eliminate_yn, reduce_and, reduce_or}
use lightbuild.Kconfig.Expr.Yn.Shape.{IsReduced, eliminate_yn_sound}
use lightbuild.Kconfig.Expr.Eq.{
  level_and, level_of, eliminate_level, eliminate_eq_by, eq_by, expr_eliminate_eq, expr_eq,
}
use lightbuild.Kconfig.Expr.Eq.Implies.{
  Implies, eliminate_eq_sound, eliminate_eq_yes, expr_eq_sound,
}
use lightbuild.Kconfig.Expr.Transform.{
  expr_transform, expr_trans_bool, transform_comp, transform_not,
}
use lightbuild.Kconfig.Expr.Transform.Shape.{weight, IsNormal}
use lightbuild.Kconfig.Expr.Transform.Total.{transform_sound}
use lightbuild.Kconfig.Expr.Transform.Idem.{transform-transform}
use lightbuild.Kconfig.Expr.Dups.{expr_join, dups_pass, expr_eliminate_dups}
use lightbuild.Kconfig.Expr.Dups.Join.{Joining, expr_join_sound}
use lightbuild.Kconfig.Expr.Dups.Total.{eliminate_dups_sound}
use lightbuild.Kconfig.Expr.Compare.{trans_compare}
use lightbuild.Kconfig.Expr.Compare.Meaning.{
  test_value, test_unequal, bound_no, trans_compare_sound,
}
use lightbuild.Kconfig.Expr.Search.{
  AgreesBut, contains_symbol_sound, depends_symbol_sound, trans_bool_sound,
}

-- A && (A || !B) and (A || !B) && B.
abbrev dep1 : Expr
dep1 = and (symbol sym_a) (or (symbol sym_a) (not (symbol sym_b)))

abbrev dep2 : Expr
dep2 = and (or (symbol sym_a) (not (symbol sym_b))) (symbol sym_b)

-- !(A!=n && B=n) || y.
abbrev dep3 : Expr
dep3 =
    or (not (and (comp unequal sym_a symbol_no) (comp equal sym_b symbol_no))) (symbol symbol_yes)

-- (A || A=y) || A.
abbrev dep4 : Expr
dep4 = or (or (symbol sym_a) (comp equal sym_a symbol_yes)) (symbol sym_a)

test_transform :
    expr_transform (sample tri_mod) 30 dep3
    ≡ some (or (or (comp equal sym_a symbol_no) (symbol sym_b)) (symbol symbol_yes))
unfolding expr_transform transform_comp transform_not
test_transform = refl

test_eliminate_eq : expr_eliminate_eq 40 dep1 dep2 ≡ some (symbol sym_a, symbol sym_b)
unfolding expr_eliminate_eq eliminate_eq_by eliminate_level eq_by expr_eliminate_yn reduce_and
    reduce_or
test_eliminate_eq = refl

transform_sound_example :
    (e' : Expr) × (expr_transform (sample tri_mod) 30 dep3 ≡ some e')
    × (expr_calc_value (sample tri_mod) e' ≡ expr_calc_value (sample tri_mod) dep3)
    × (weight e' ≤ weight dep3)
    × IsNormal (sample tri_mod) e'
unfolding weight
transform_sound_example =
    transform_sound (sample tri_mod) 30 dep3 (sample-IsCalculated tri_mod) (omega arith)

transform-transform_example :
    expr_transform
      (sample tri_mod)
      31
      (or (or (comp equal sym_a symbol_no) (symbol sym_b)) (symbol symbol_yes))
    ≡ some (or (or (comp equal sym_a symbol_no) (symbol sym_b)) (symbol symbol_yes))
unfolding weight
transform-transform_example =
    transform-transform (sample tri_mod) 30 31 dep3
      (or (or (comp equal sym_a symbol_no) (symbol sym_b)) (symbol symbol_yes))
      (sample-IsCalculated tri_mod) (omega arith) (omega arith) test_transform

eliminate_yn_sound_example :
    (expr_calc_value (sample tri_mod) (expr_eliminate_yn dep3)
      ≡ expr_calc_value (sample tri_mod) dep3)
    × IsReduced (expr_eliminate_yn dep3)
    × (expr_eliminate_yn (expr_eliminate_yn dep3) ≡ expr_eliminate_yn dep3)
    × (IsReduced dep3 ⊎ (size (expr_eliminate_yn dep3) < size dep3))
eliminate_yn_sound_example = eliminate_yn_sound (sample tri_mod) dep3 (sample-IsCalculated tri_mod)

eliminate_eq_sound_example :
    (d1 : Expr) × (d2 : Expr) × (expr_eliminate_eq 40 dep1 dep2 ≡ some (d1, d2))
    × IsReduced d1
    × IsReduced d2
    × (Implies (sample tri_mod) d1 d2 → Implies (sample tri_mod) dep1 dep2)
    × (Implies (sample tri_mod) d2 d1 → Implies (sample tri_mod) dep2 dep1)
    × (size d1 + size d2 ≤ size dep1 + size dep2)
unfolding size
eliminate_eq_sound_example =
    eliminate_eq_sound (sample tri_mod) (sample-IsCalculated tri_mod) 40 dep1 dep2 (omega arith)

test_eliminate_yes :
    expr_eliminate_eq 40 dep1 (symbol sym_a)
    ≡ some (or (symbol sym_a) (not (symbol sym_b)), symbol symbol_yes)
unfolding expr_eliminate_eq eliminate_eq_by eliminate_level eq_by expr_eliminate_yn reduce_and
    reduce_or
test_eliminate_yes = refl

eliminate_eq_yes_example : Implies (sample tri_mod) dep1 (symbol sym_a)
unfolding size expr_is_yes
eliminate_eq_yes_example =
    eliminate_eq_yes (sample tri_mod) (sample-IsCalculated tri_mod) 40 dep1 (symbol sym_a)
      (or (symbol sym_a) (not (symbol sym_b))) (symbol symbol_yes) (omega arith) test_eliminate_yes
      refl

expr_eq_sound_example :
    (b : Bool) × (expr_eq 40 (some dep1) (some dep2) ≡ some b)
    × (b ≡ true → calc_value (sample tri_mod) (some dep1) ≡ calc_value (sample tri_mod) (some dep2))
unfolding size
expr_eq_sound_example =
    expr_eq_sound (sample tri_mod) 40 (some dep1) (some dep2) (sample-IsCalculated tri_mod)
      (omega arith)

expr_join_sound_example :
    Joining
      (sample tri_mod)
      level_and
      (symbol sym_a)
      (comp equal sym_a symbol_yes)
      (expr_join level_and (sample tri_mod) 4 (symbol sym_a) (comp equal sym_a symbol_yes))
unfolding size
expr_join_sound_example =
    expr_join_sound (sample tri_mod) (sample-IsCalculated tri_mod) (sample-ConstantsDiffer tri_mod)
      level_and 4 (symbol sym_a) (comp equal sym_a symbol_yes) (omega arith)

eliminate_dups_sound_example :
    (x : Expr) × (expr_eliminate_dups (sample tri_mod) 60 6 dep4 ≡ some x)
    × (expr_calc_value (sample tri_mod) x ≡ expr_calc_value (sample tri_mod) dep4)
    × (size x ≤ size dep4)
    × (dups_pass (sample tri_mod) 60 x (level_of x) ≡ some (x, 0))
unfolding size
eliminate_dups_sound_example =
    eliminate_dups_sound (sample tri_mod) (sample-IsCalculated tri_mod)
      (sample-ConstantsDiffer tri_mod) 60 5 6 dep4 (omega arith) (omega arith) (omega arith)

trans_compare_sound_example :
    (e' : Expr) × (trans_compare (some dep1) unequal symbol_no ≡ some e')
    × (expr_calc_value (sample tri_mod) e'
        ≡ test_value unequal (calc_value (sample tri_mod) (some dep1)) tri_no)
unfolding expr_calc_value
trans_compare_sound_example =
    trans_compare_sound (sample tri_mod) (some dep1) (sample-IsCalculated tri_mod)
      (
        sample-IsTyped tri_mod sym_a,
        (sample-IsTyped tri_mod sym_a, (sample-IsTyped tri_mod sym_b, λ e. cc)),
      )
      test_unequal bound_no

sample-AgreesBut : AgreesBut sym_a (sample tri_mod) (sample tri_no)
sample-AgreesBut = record { others = agree; modules = refl; not_modules = refl }
  where
    agree : (x : Sym) → (x == sym_a) ≡ false → sample_get tri_mod x ≡ sample_get tri_no x
    agree zero h = refl
    agree (suc zero) h = refl
    agree (suc (suc zero)) h = refl
    agree (suc (suc (suc zero))) h = absurd (cc)
    agree (suc (suc (suc (suc x)))) h = refl

contains_symbol_sound_example :
    expr_calc_value (sample tri_mod) (not (comp equal sym_b symbol_no))
    ≡ expr_calc_value (sample tri_no) (not (comp equal sym_b symbol_no))
unfolding expr_contains_symbol
contains_symbol_sound_example =
    contains_symbol_sound sym_a (sample tri_mod) (sample tri_no) sample-AgreesBut
      (not (comp equal sym_b symbol_no)) refl

depends_symbol_sound_example :
    expr_calc_value (sample tri_no) (and (symbol sym_b) (comp unequal sym_a symbol_no)) ≡ tri_no
unfolding expr_depends_symbol
depends_symbol_sound_example =
    depends_symbol_sound (sample tri_no) (and (symbol sym_b) (comp unequal sym_a symbol_no)) sym_a
      (sample-IsCalculated tri_no) (inr refl) refl refl

trans_bool_sound_example :
    (rank (
        expr_calc_value
          (sample tri_mod)
          (expr_trans_bool (sample tri_mod) (comp unequal sym_a symbol_no)))
      ≤ rank (expr_calc_value (sample tri_mod) (comp unequal sym_a symbol_no)))
    × ((expr_calc_value
            (sample tri_mod)
            (expr_trans_bool (sample tri_mod) (comp unequal sym_a symbol_no))
          ≡ tri_no)
        ↔ (expr_calc_value (sample tri_mod) (comp unequal sym_a symbol_no) ≡ tri_no))
trans_bool_sound_example =
    trans_bool_sound (sample tri_mod) (comp unequal sym_a symbol_no) (sample-IsCalculated tri_mod)
      tt

symbol_order-constant_example :
    holds equal (symbol_order (sample tri_mod) sym_a symbol_mod) ≡ tri_eq tri_mod tri_mod
symbol_order-constant_example =
    symbol_order-constant (sample tri_mod) sym_a tri_mod (sample-IsCalculated tri_mod) (inr refl)

-- Why expr_trans_bool speaks of BOOLEAN symbols and tests for TRISTATE ones: it changes a value.
trans_bool_changes :
    expr_calc_value
      (sample tri_mod)
      (expr_trans_bool (sample tri_mod) (comp unequal sym_a symbol_no))
    ≢ expr_calc_value (sample tri_mod) (comp unequal sym_a symbol_no)
unfolding expr_trans_bool expr_calc_value symbol_order value_order sym_get_string_value
    expr_parse_string
trans_bool_changes = cc
