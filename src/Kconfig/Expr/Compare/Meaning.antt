-- ===== src/Kconfig/Expr/Compare/Meaning.antt =====
-- Where each symbol of a dependency is BOOLEAN, TRISTATE or constant, comparing it with `y` or `n`
-- by expr_trans_compare tests its value.
use lightbuild.Prelude.{
  ◌≡◌, ◌≢◌, ◌⊎◌, refl, sym, ap, ◌∙◌, subst, arith, Option, none, some, inl, inr, ◌>>=◌,
  if◌then◌else◌,
}
use lightbuild.Kconfig.Tristate.{
  Tristate, tri_no, tri_mod, tri_yes, expr_and, expr_or, expr_not, of_bool, tri_eq,
}
use lightbuild.Kconfig.Symbol.{
  Sym, Table, IsCalculated, IsTristateLike, symbol_no, symbol_yes, symbol_of,
}
use lightbuild.Kconfig.Expr.{
  Relation, equal, unequal, Expr, symbol, not, and, or, comp, list_end, list, range,
}
use lightbuild.Kconfig.Expr.Value.{expr_calc_value, calc_value, symbol_order, holds}
use lightbuild.Kconfig.Expr.Value.Constants.{symbol_order-constant, symbol_order-constants}
use lightbuild.Kconfig.Expr.Compare.{is_equal, compare_node, expr_trans_compare, trans_compare}

abbrev pub IsTyped : Table → Sym → Type 0
IsTyped t s = IsTristateLike (t.get s).type ⊎ ((v : Tristate) × (s ≡ symbol_of v))

-- A dependency: no list, no range, no plain symbol that is a number, a string or undefined, and no
-- negation of an operand that is `m`.
abbrev pub IsDependency : Table → Expr → Type 0
IsDependency t (symbol s) = IsTyped t s
IsDependency t (not e) = IsDependency t e × (expr_calc_value t e ≢ tri_mod)
IsDependency t (and a b) = IsDependency t a × IsDependency t b
IsDependency t (or a b) = IsDependency t a × IsDependency t b
IsDependency t (comp r a b) = Unit
IsDependency t _ = ⊥

-- `y` and `n`, the constants that menu.c compares with.
pub data IsBound : Tristate → Type 0 where
  bound_yes : IsBound tri_yes
  bound_no : IsBound tri_no

pub data IsTest : Relation → Type 0 where
  test_equal : IsTest equal
  test_unequal : IsTest unequal

-- The value of a test `value = v` or `value != v`.
abbrev pub test_value : Relation → Tristate → Tristate → Tristate
test_value r a v = if is_equal r then of_bool (tri_eq a v) else expr_not (of_bool (tri_eq a v))

not_equal :
    (a : Tristate) {v : Tristate}
    → IsBound v
    → a ≢ tri_mod
    → test_value unequal a v ≡ test_value equal (expr_not a) v
unfolding expr_not
not_equal a bound_yes h = ground arith
not_equal a bound_no h = ground arith

not_unequal :
    (a : Tristate) {v : Tristate}
    → IsBound v
    → a ≢ tri_mod
    → test_value equal a v ≡ test_value unequal (expr_not a) v
unfolding expr_not
not_unequal a bound_yes h = ground arith
not_unequal a bound_no h = ground arith

module _ (t : Table) (c : IsCalculated t) where
  pub symbol-test :
      (s : Sym) (v : Tristate)
      → IsTyped t s
      → holds equal (symbol_order t s (symbol_of v)) ≡ tri_eq (t.get s).tri v
  symbol-test s v (inl like) = symbol_order-constant t s v c like
  symbol-test s v (inr (u, is)) =
      subst (λ x. holds equal (symbol_order t x (symbol_of v)) ≡ tri_eq (t.get x).tri v) (sym is)
        (symbol_order-constants t u v c)

  node_and :
      (x y x' y' : Expr) {r : Relation} {v : Tristate}
      → IsTest r
      → IsBound v
      → expr_calc_value t x' ≡ test_value equal (expr_calc_value t x) v
      → expr_calc_value t y' ≡ test_value equal (expr_calc_value t y) v
      → expr_calc_value t (compare_node (and x y) and or r (symbol_of v) x' y')
        ≡ test_value r (expr_calc_value t (and x y)) v
  unfolding expr_calc_value expr_not expr_and expr_or
  node_and x y x' y' test_equal bound_yes hx hy = ground arith
  node_and x y x' y' test_equal bound_no hx hy = ground arith
  node_and x y x' y' test_unequal bound_yes hx hy = ground arith
  node_and x y x' y' test_unequal bound_no hx hy = ground arith

  node_or :
      (x y x' y' : Expr) {r : Relation} {v : Tristate}
      → IsTest r
      → IsBound v
      → expr_calc_value t x' ≡ test_value equal (expr_calc_value t x) v
      → expr_calc_value t y' ≡ test_value equal (expr_calc_value t y) v
      → expr_calc_value t (compare_node (or x y) or and r (symbol_of v) x' y')
        ≡ test_value r (expr_calc_value t (or x y)) v
  unfolding expr_calc_value expr_not expr_and expr_or
  node_or x y x' y' test_equal bound_yes hx hy = ground arith
  node_or x y x' y' test_equal bound_no hx hy = ground arith
  node_or x y x' y' test_unequal bound_yes hx hy = ground arith
  node_or x y x' y' test_unequal bound_no hx hy = ground arith

  trans_compare_test :
      (e : Expr) {r : Relation} {v : Tristate}
      → IsDependency t e
      → IsTest r
      → IsBound v
      → (e' : Expr) × (expr_trans_compare e r (symbol_of v) ≡ some e')
        × (expr_calc_value t e' ≡ test_value r (expr_calc_value t e) v)
  unfolding expr_trans_compare expr_calc_value expr_not
  trans_compare_test (symbol s) {v = v} dep test_equal b =
      (comp equal s (symbol_of v), refl, ap of_bool (symbol-test s v dep))
  trans_compare_test (symbol s) {v = v} dep test_unequal b =
      (comp unequal s (symbol_of v), refl, ground (arith, symbol-test s v dep))
  trans_compare_test (not e) {v = v} dep test_equal b =
      let (e', eq, h) = trans_compare_test e dep.0 test_unequal b in
      (e', eq, h ∙ not_equal (expr_calc_value t e) b dep.1)
  trans_compare_test (not e) {v = v} dep test_unequal b =
      let (e', eq, h) = trans_compare_test e dep.0 test_equal b in
      (e', eq, h ∙ not_unequal (expr_calc_value t e) b dep.1)
  trans_compare_test (and x y) {r = r} {v = v} dep test b =
      let (x', ex, hx) = trans_compare_test x dep.0 test_equal b in
      let (y', ey, hy) = trans_compare_test y dep.1 test_equal b in
      (
        compare_node (and x y) and or r (symbol_of v) x' y',
        rw (ex, ◌>>=◌) (rw (ey, ◌>>=◌) refl),
        node_and x y x' y' test b hx hy,
      )
  trans_compare_test (or x y) {r = r} {v = v} dep test b =
      let (x', ex, hx) = trans_compare_test x dep.0 test_equal b in
      let (y', ey, hy) = trans_compare_test y dep.1 test_equal b in
      (
        compare_node (or x y) or and r (symbol_of v) x' y',
        rw (ex, ◌>>=◌) (rw (ey, ◌>>=◌) refl),
        node_or x y x' y' test b hx hy,
      )
  trans_compare_test (comp r' a b') dep test_equal bound_yes = (comp r' a b', refl, ground arith)
  trans_compare_test (comp r' a b') dep test_equal bound_no =
      (not (comp r' a b'), refl, ground arith)
  trans_compare_test (comp r' a b') dep test_unequal bound_yes =
      (not (comp r' a b'), refl, ground arith)
  trans_compare_test (comp r' a b') dep test_unequal bound_no = (comp r' a b', refl, ground arith)
  trans_compare_test (list_end s) dep r b = absurd dep
  trans_compare_test (list e s) dep r b = absurd dep
  trans_compare_test (range a d) dep r b = absurd dep

abbrev pub IsDependencyPtr : Table → Option Expr → Type 0
IsDependencyPtr t none = Unit
IsDependencyPtr t (some e) = IsDependency t e

-- Over symbols that are BOOLEAN, TRISTATE or constant, with no negation of an operand that is `m`,
-- expr_trans_compare returns an expression that is `y` where the given one (NULL is `y`) is equal
-- to, or for E_UNEQUAL is not equal to, the constant `y` or `n`, and `n` elsewhere.
pub trans_compare_sound :
    (t : Table) (p : Option Expr) {r : Relation} {v : Tristate}
    → IsCalculated t
    → IsDependencyPtr t p
    → IsTest r
    → IsBound v
    → (e' : Expr) × (trans_compare p r (symbol_of v) ≡ some e')
      × (expr_calc_value t e' ≡ test_value r (calc_value t p) v)
unfolding trans_compare expr_calc_value expr_not
trans_compare_sound t none {v = v} c dep test_equal bound_yes =
    (symbol symbol_yes, refl, ap (λ s. s.tri) (c.constants tri_yes))
trans_compare_sound t none {v = v} c dep test_equal bound_no =
    (symbol symbol_no, refl, ap (λ s. s.tri) (c.constants tri_no))
trans_compare_sound t none {v = v} c dep test_unequal bound_yes =
    (not (symbol symbol_yes), refl, ap (λ s. expr_not s.tri) (c.constants tri_yes))
trans_compare_sound t none {v = v} c dep test_unequal bound_no =
    (not (symbol symbol_no), refl, ap (λ s. expr_not s.tri) (c.constants tri_no))
trans_compare_sound t (some e) c dep test b = trans_compare_test t c e dep test b
