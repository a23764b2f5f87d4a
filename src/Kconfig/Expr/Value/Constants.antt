-- ===== src/Kconfig/Expr/Value/Constants.antt =====
-- Comparisons of a BOOLEAN or TRISTATE symbol with `y`, `m` or `n` test its value.
use lightbuild.Prelude.{◌≡◌, refl, arith}
use lightbuild.Kconfig.Tristate.{Tristate, tri_no, tri_mod, tri_yes, tri_eq}
use lightbuild.Kconfig.Symbol.{
  SymbolType, boolean, tristate, unknown, Sym, Table, IsCalculated, IsTristateLike, symbol_of,
  letter, string-letter, string-constant,
}
use lightbuild.Kconfig.Expr.{equal}
use lightbuild.Kconfig.Expr.Value.{holds, value_order, symbol_order, expr_parse_string}

value_order-letter :
    (ty : SymbolType) (a v : Tristate)
    → IsTristateLike ty
    → holds equal (value_order ty (letter a) unknown (letter v)) ≡ tri_eq a v
unfolding value_order expr_parse_string
value_order-letter boolean tri_no tri_no h = refl
value_order-letter boolean tri_no tri_mod h = refl
value_order-letter boolean tri_no tri_yes h = refl
value_order-letter boolean tri_mod tri_no h = refl
value_order-letter boolean tri_mod tri_mod h = refl
value_order-letter boolean tri_mod tri_yes h = refl
value_order-letter boolean tri_yes tri_no h = refl
value_order-letter boolean tri_yes tri_mod h = refl
value_order-letter boolean tri_yes tri_yes h = refl
value_order-letter tristate tri_no tri_no h = refl
value_order-letter tristate tri_no tri_mod h = refl
value_order-letter tristate tri_no tri_yes h = refl
value_order-letter tristate tri_mod tri_no h = refl
value_order-letter tristate tri_mod tri_mod h = refl
value_order-letter tristate tri_mod tri_yes h = refl
value_order-letter tristate tri_yes tri_no h = refl
value_order-letter tristate tri_yes tri_mod h = refl
value_order-letter tristate tri_yes tri_yes h = refl
value_order-letter _ a v h = ground arith

-- Over calculated symbols, a BOOLEAN or TRISTATE symbol compares equal to the constant `y`, `m` or
-- `n` exactly where that is its value.
pub symbol_order-constant :
    (t : Table) (s : Sym) (v : Tristate)
    → IsCalculated t
    → IsTristateLike (t.get s).type
    → holds equal (symbol_order t s (symbol_of v)) ≡ tri_eq (t.get s).tri v
unfolding symbol_order
symbol_order-constant t s v c h = rw (string-letter t s c h) (
    rw (string-constant t v c)
      (rw (c.constants v) (value_order-letter (t.get s).type (t.get s).tri v h)))

value_order-constants :
    (u v : Tristate) → holds equal (value_order unknown (letter u) unknown (letter v)) ≡ tri_eq u v
unfolding value_order expr_parse_string
value_order-constants tri_no tri_no = refl
value_order-constants tri_no tri_mod = refl
value_order-constants tri_no tri_yes = refl
value_order-constants tri_mod tri_no = refl
value_order-constants tri_mod tri_mod = refl
value_order-constants tri_mod tri_yes = refl
value_order-constants tri_yes tri_no = refl
value_order-constants tri_yes tri_mod = refl
value_order-constants tri_yes tri_yes = refl

pub symbol_order-constants :
    (t : Table) (u v : Tristate)
    → IsCalculated t
    → holds equal (symbol_order t (symbol_of u) (symbol_of v)) ≡ tri_eq (t.get (symbol_of u)).tri v
unfolding symbol_order
symbol_order-constants t u v c = rw (string-constant t u c) (
    rw (string-constant t v c)
      (rw (c.constants u) (rw (c.constants v) (value_order-constants u v))))
