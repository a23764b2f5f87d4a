-- ===== src/Kconfig/Expr.antt =====
-- `struct expr` of scripts/kconfig/expr.h, and the functions of expr.c that build and search
-- expressions. Trees are values here, so expr_copy is the identity and expr_free does nothing. A
-- pointer that may be NULL is an `Option Expr`; an operand never is NULL, except at the end of an
-- E_LIST. The children model the rest of expr.c.
use lightbuild.Prelude.{ℕ, suc, ◌+◌, Bool, true, false, ◌&&◌, ◌||◌, Option, none, some, ◌==◌}
use lightbuild.Kconfig.Symbol.{Sym, symbol_no, symbol_mod, symbol_yes}
pub mod Value
pub mod Yn
pub mod Transform
pub mod Eq
pub mod Dups
pub mod Compare
pub mod Search
pub mod Samples
mod Tests

-- E_EQUAL, E_UNEQUAL, E_LTH, E_LEQ, E_GTH and E_GEQ.
pub data Relation : Type 0 where
  equal unequal lth leq gth geq : Relation

pub data Expr : Type 0 where
  symbol : Sym → Expr
  not : Expr → Expr
  and or : Expr → Expr → Expr
  comp : Relation → Sym → Sym → Expr
  list_end : Sym → Expr
  list : Expr → Sym → Expr
  range : Sym → Sym → Expr

-- E_NONE is left out: no function makes such a node.
pub data ExprType : Type 0 where
  e_or e_and e_not : ExprType
  e_comp : Relation → ExprType
  e_list e_symbol e_range : ExprType

abbrev pub type_of : Expr → ExprType
type_of (symbol s) = e_symbol
type_of (not e) = e_not
type_of (and a b) = e_and
type_of (or a b) = e_or
type_of (comp r a b) = e_comp r
type_of (list_end s) = e_list
type_of (list e s) = e_list
type_of (range a b) = e_range

unfoldable pub expr_alloc_and : Option Expr → Option Expr → Option Expr
expr_alloc_and none e2 = e2
expr_alloc_and (some e1) none = some e1
expr_alloc_and (some e1) (some e2) = some (and e1 e2)

unfoldable pub expr_alloc_or : Option Expr → Option Expr → Option Expr
expr_alloc_or none e2 = e2
expr_alloc_or (some e1) none = some e1
expr_alloc_or (some e1) (some e2) = some (or e1 e2)

-- A NULL expression is taken to be yes.
unfoldable pub expr_is_yes : Option Expr → Bool
expr_is_yes none = true
expr_is_yes (some (symbol s)) = s == symbol_yes
expr_is_yes (some _) = false

unfoldable pub expr_is_no : Option Expr → Bool
expr_is_no (some (symbol s)) = s == symbol_no
expr_is_no _ = false

unfoldable pub expr_contains_symbol : Expr → Sym → Bool
expr_contains_symbol (and a b) s = expr_contains_symbol a s || expr_contains_symbol b s
expr_contains_symbol (or a b) s = expr_contains_symbol a s || expr_contains_symbol b s
expr_contains_symbol (symbol x) s = x == s
expr_contains_symbol (comp r a b) s = a == s || b == s
expr_contains_symbol (not e) s = expr_contains_symbol e s
expr_contains_symbol _ s = false

unfoldable pub expr_depends_symbol : Expr → Sym → Bool
expr_depends_symbol (and a b) s = expr_depends_symbol a s || expr_depends_symbol b s
expr_depends_symbol (symbol x) s = x == s
expr_depends_symbol (comp equal a b) s = a == s && (b == symbol_yes || b == symbol_mod)
expr_depends_symbol (comp unequal a b) s = a == s && b == symbol_no
expr_depends_symbol _ s = false

-- `e->type == E_SYMBOL && e->left.sym == s`.
abbrev pub is_symbol : Expr → Sym → Bool
is_symbol (symbol x) s = x == s
is_symbol _ s = false

-- The number of nodes.
unfoldable pub size : Expr → ℕ
size (not e) = suc (size e)
size (and a b) = suc (size a + size b)
size (or a b) = suc (size a + size b)
size (list e s) = suc (size e)
size _ = 1
