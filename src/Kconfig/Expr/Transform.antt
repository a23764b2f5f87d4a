-- ===== src/Kconfig/Expr/Transform.antt =====
-- expr_transform and expr_trans_bool of scripts/kconfig/expr.c.
pub mod Value
pub mod Shape
pub mod Total
pub mod Idem
use lightbuild.Prelude.{
  ℕ, zero, suc, Bool, true, false, ◌&&◌, Option, none, some, ◌==◌, if◌then◌else◌, ◌>>=◌,
}
use lightbuild.Kconfig.Symbol.{
  Sym, Table, boolean, tristate, type_eq, symbol_no, symbol_mod, symbol_yes,
}
use lightbuild.Kconfig.Expr.{
  Relation, equal, unequal, lth, leq, gth, geq, Expr, symbol, not, and, or, comp, list_end, list,
  range,
}

-- The relation that holds where `r` does not.
abbrev pub complement : Relation → Relation
complement equal = unequal
complement unequal = equal
complement leq = gth
complement geq = lth
complement lth = geq
complement gth = leq

-- The cases E_EQUAL and E_UNEQUAL: a BOOLEAN symbol compared with a constant.
unfoldable pub transform_comp : Table → Relation → Sym → Sym → Expr
transform_comp t equal a b =
    if type_eq (t.get a).type boolean
    then if b == symbol_no
      then not (symbol a)
      else if b == symbol_mod
      then symbol symbol_no
      else if b == symbol_yes
      then symbol a
      else comp equal a b
    else comp equal a b
transform_comp t unequal a b =
    if type_eq (t.get a).type boolean
    then if b == symbol_no
      then symbol a
      else if b == symbol_mod
      then symbol symbol_yes
      else if b == symbol_yes
      then not (symbol a)
      else comp unequal a b
    else comp unequal a b
transform_comp t r a b = comp r a b

abbrev pub negate_symbol : Sym → Expr
negate_symbol s =
    if s == symbol_yes
    then symbol symbol_no
    else if s == symbol_mod
    then symbol symbol_mod
    else if s == symbol_no
    then symbol symbol_yes
    else not (symbol s)

-- The case E_NOT, over the transformed operand; `again` is the recursive call.
unfoldable pub transform_not : (Expr → Option Expr) → Expr → Option Expr
transform_not again (not e) = again e
transform_not again (comp r a b) = some (comp (complement r) a b)
transform_not again (or a b) = again (and (not a) (not b))
transform_not again (and a b) = again (or (not a) (not b))
transform_not again (symbol s) = some (negate_symbol s)
transform_not again e = some (not e)

-- `none` means that the fuel ran out.
unfoldable pub expr_transform : Table → ℕ → Expr → Option Expr
expr_transform t zero e = none
expr_transform t (suc f) (comp r a b) = some (transform_comp t r a b)
expr_transform t (suc f) (and a b) = do
  a' ← expr_transform t f a
  b' ← expr_transform t f b
  some (and a' b')
expr_transform t (suc f) (or a b) = do
  a' ← expr_transform t f a
  b' ← expr_transform t f b
  some (or a' b')
expr_transform t (suc f) (not e) = expr_transform t f e >>= transform_not (expr_transform t f)
expr_transform t (suc f) e = some e

unfoldable pub expr_trans_bool : Table → Expr → Expr
expr_trans_bool t (and a b) = and (expr_trans_bool t a) (expr_trans_bool t b)
expr_trans_bool t (or a b) = or (expr_trans_bool t a) (expr_trans_bool t b)
expr_trans_bool t (not e) = not (expr_trans_bool t e)
expr_trans_bool t (comp unequal a b) =
    if type_eq (t.get a).type tristate && b == symbol_no then symbol a else comp unequal a b
expr_trans_bool t e = e
