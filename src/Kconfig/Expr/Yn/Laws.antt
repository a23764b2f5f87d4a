-- ===== src/Kconfig/Expr/Yn/Laws.antt =====
-- expr_eliminate_yn keeps the value, leaves no constant operand and is done in one pass.
use lightbuild.Prelude.{◌≡◌, refl, ap, ap₂, ◌∙◌, true, arith, ==_iff}
use lightbuild.Kconfig.Tristate.{Tristate, tri_no, tri_mod, tri_yes, expr_and, expr_or}
use lightbuild.Kconfig.Tristate
use lightbuild.Kconfig.Symbol.{Sym, Table, IsCalculated, symbol_no, symbol_yes}
use lightbuild.Kconfig.Expr.{Expr, symbol, and, or, is_symbol}
use lightbuild.Kconfig.Expr.Value.{expr_calc_value}
use lightbuild.Kconfig.Expr.Yn.{reduce_and, reduce_or, expr_eliminate_yn}

pub is_symbol-eq : (e : Expr) (s : Sym) → is_symbol e s ≡ true → e ≡ symbol s
is_symbol-eq (symbol x) s h = ap symbol ((==_iff x s).0 h)
is_symbol-eq _ s h = ground arith

module _ (t : Table) (c : IsCalculated t) where
  pub value_no : expr_calc_value t (symbol symbol_no) ≡ tri_no
  unfolding expr_calc_value
  value_no = ap (λ s. s.tri) (c.constants tri_no)

  pub value_yes : expr_calc_value t (symbol symbol_yes) ≡ tri_yes
  unfolding expr_calc_value
  value_yes = ap (λ s. s.tri) (c.constants tri_yes)

  pub value-reduce_and :
      (l r : Expr)
      → expr_calc_value t (reduce_and l r) ≡ expr_and (expr_calc_value t l) (expr_calc_value t r)
  unfolding reduce_and expr_calc_value
  value-reduce_and l r =
      let x = expr_calc_value t l in
      let y = expr_calc_value t r in
      ground (
        arith,
        is_symbol-eq l symbol_no,
        is_symbol-eq l symbol_yes,
        is_symbol-eq r symbol_no,
        is_symbol-eq r symbol_yes,
        ap (λ s. s.tri) (c.constants tri_no),
        ap (λ s. s.tri) (c.constants tri_yes),
        Tristate.no_and y,
        Tristate.yes_and y,
        Tristate.and_no x,
        Tristate.and_yes x,
      )

  pub value-reduce_or :
      (l r : Expr)
      → expr_calc_value t (reduce_or l r) ≡ expr_or (expr_calc_value t l) (expr_calc_value t r)
  unfolding reduce_or expr_calc_value
  value-reduce_or l r =
      let x = expr_calc_value t l in
      let y = expr_calc_value t r in
      ground (
        arith,
        is_symbol-eq l symbol_no,
        is_symbol-eq l symbol_yes,
        is_symbol-eq r symbol_no,
        is_symbol-eq r symbol_yes,
        ap (λ s. s.tri) (c.constants tri_no),
        ap (λ s. s.tri) (c.constants tri_yes),
        Tristate.no_or y,
        Tristate.yes_or y,
        Tristate.or_no x,
        Tristate.or_yes x,
      )

  -- The value of an expression is kept.
  pub value-eliminate_yn :
      (e : Expr) → expr_calc_value t (expr_eliminate_yn e) ≡ expr_calc_value t e
  unfolding expr_eliminate_yn expr_calc_value
  value-eliminate_yn (and a b) =
      value-reduce_and _ _ ∙ ap₂ expr_and (value-eliminate_yn a) (value-eliminate_yn b)
  value-eliminate_yn (or a b) =
      value-reduce_or _ _ ∙ ap₂ expr_or (value-eliminate_yn a) (value-eliminate_yn b)
  value-eliminate_yn _ = refl
