-- ===== src/Kconfig/Expr/Compare.antt =====
-- expr_trans_compare of scripts/kconfig/expr.c.
pub mod Meaning
use lightbuild.Prelude.{Bool, true, false, Option, none, some, ◌==◌, if◌then◌else◌, ◌>>=◌}
use lightbuild.Kconfig.Symbol.{Sym, symbol_no, symbol_mod, symbol_yes}
use lightbuild.Kconfig.Expr.{
  Relation, equal, unequal, lth, leq, gth, geq, Expr, symbol, not, and, or, comp, list_end, list,
  range,
}

abbrev pub is_equal : Relation → Bool
is_equal equal = true
is_equal _ = false

abbrev pub is_unequal : Relation → Bool
is_unequal unequal = true
is_unequal _ = false

-- The cases E_AND and E_OR, over the operands compared with E_EQUAL: `e` stays as it is where
-- `sym` is neither constant, and E_UNEQUAL negates.
abbrev pub compare_node :
    Expr → (Expr → Expr → Expr) → (Expr → Expr → Expr) → Relation → Sym → Expr → Expr → Expr
compare_node e at_yes at_no type sym e1 e2 =
    let x =
      if sym == symbol_yes then at_yes e1 e2 else if sym == symbol_no then at_no e1 e2 else e in
    if is_unequal type then not x else x

-- The comparisons, whose value is `y` or `n`.
abbrev pub compare_comp : Expr → Relation → Sym → Option Expr
compare_comp e type sym =
    if is_equal type
    then if sym == symbol_yes
      then some e
      else if sym == symbol_mod
      then some (symbol symbol_no)
      else if sym == symbol_no
      then some (not e)
      else none
    else if sym == symbol_yes
    then some (not e)
    else if sym == symbol_mod
    then some (symbol symbol_yes)
    else if sym == symbol_no
    then some e
    else none

abbrev pub flip_type : Relation → Relation
flip_type equal = unequal
flip_type _ = equal

-- NULL is `none`; an operand for which the source has NULL makes the whole result NULL here, which
-- is only so under an E_LIST or E_RANGE node.
unfoldable pub expr_trans_compare : Expr → Relation → Sym → Option Expr
expr_trans_compare (and a b) type sym = do
  e1 ← expr_trans_compare a equal sym
  e2 ← expr_trans_compare b equal sym
  some (compare_node (and a b) and or type sym e1 e2)
expr_trans_compare (or a b) type sym = do
  e1 ← expr_trans_compare a equal sym
  e2 ← expr_trans_compare b equal sym
  some (compare_node (or a b) or and type sym e1 e2)
expr_trans_compare (not e) type sym = expr_trans_compare e (flip_type type) sym
expr_trans_compare (comp r a b) type sym = compare_comp (comp r a b) type sym
expr_trans_compare (symbol s) type sym = some (comp type s sym)
expr_trans_compare _ type sym = none

-- Of a pointer: NULL is taken to be yes.
unfoldable pub trans_compare : Option Expr → Relation → Sym → Option Expr
trans_compare none type sym = some (if is_unequal type then not (symbol sym) else symbol sym)
trans_compare (some e) type sym = expr_trans_compare e type sym
