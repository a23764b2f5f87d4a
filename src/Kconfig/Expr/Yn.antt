-- ===== src/Kconfig/Expr/Yn.antt =====
-- expr_eliminate_yn of scripts/kconfig/expr.c.
pub mod Laws
pub mod Shape
use lightbuild.Prelude.{if◌then◌else◌}
use lightbuild.Kconfig.Symbol.{symbol_no, symbol_yes}
use lightbuild.Kconfig.Expr.{Expr, symbol, and, or, is_symbol}

-- The cases E_AND and E_OR, behind the recursive calls.
unfoldable pub reduce_and : Expr → Expr → Expr
reduce_and l r =
    if is_symbol l symbol_no
    then symbol symbol_no
    else if is_symbol l symbol_yes
    then r
    else if is_symbol r symbol_no
    then symbol symbol_no
    else if is_symbol r symbol_yes
    then l
    else and l r

unfoldable pub reduce_or : Expr → Expr → Expr
reduce_or l r =
    if is_symbol l symbol_no
    then r
    else if is_symbol l symbol_yes
    then symbol symbol_yes
    else if is_symbol r symbol_no
    then l
    else if is_symbol r symbol_yes
    then symbol symbol_yes
    else or l r

unfoldable pub expr_eliminate_yn : Expr → Expr
expr_eliminate_yn (and a b) = reduce_and (expr_eliminate_yn a) (expr_eliminate_yn b)
expr_eliminate_yn (or a b) = reduce_or (expr_eliminate_yn a) (expr_eliminate_yn b)
expr_eliminate_yn e = e
