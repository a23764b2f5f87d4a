-- ===== src/Kconfig/Expr/Search.antt =====
-- What expr_contains_symbol, expr_depends_symbol and expr_trans_bool say of the value.
use lightbuild.Prelude.{
  ◌≤◌, ◌≡◌, ◌↔◌, refl, ap, ap₂, true, false, arith, inl, inr, ◌==◌, Bool-cases,
}
use lightbuild.Kconfig.Tristate.{
  tri_no, tri_mod, tri_yes, expr_and, expr_or, expr_not, of_bool, rank,
}
use lightbuild.Kconfig.Symbol.{
  Sym, Table, IsCalculated, IsTristateLike, sym_get_string_value, type_eq, tristate,
}
use lightbuild.Kconfig.Expr.{
  equal, unequal, Expr, symbol, not, and, or, comp, expr_contains_symbol, expr_depends_symbol,
}
use lightbuild.Kconfig.Expr.Value.{expr_calc_value, symbol_order, holds}
use lightbuild.Kconfig.Expr.Value.Constants.{symbol_order-constant}
use lightbuild.Kconfig.Expr.Transform.{expr_trans_bool}

-- Two tables that differ at most in the symbol `s`, which is not `modules_sym`.
pub record AgreesBut (s : Sym) (t t' : Table) : Type 0 where
  pub others : (x : Sym) → (x == s) ≡ false → t.get x ≡ t'.get x
  pub modules : t.modules_sym ≡ t'.modules_sym
  pub not_modules : (t.modules_sym == s) ≡ false

module _ (s : Sym) (t t' : Table) (agree : AgreesBut s t t') where
  same_order :
      (a b : Sym) → (a == s) ≡ false → (b == s) ≡ false → symbol_order t a b ≡ symbol_order t' a b
  unfolding symbol_order sym_get_string_value
  same_order a b ha hb =
      rw (agree.others a ha)
        (rw (agree.others b hb) (rw (agree.others _ agree.not_modules) (rw agree.modules refl)))

  -- The value of an expression that does not contain a symbol, as expr_contains_symbol finds,
  -- does not depend on that symbol (provided that it is not MODULES).
  pub contains_symbol_sound :
      (e : Expr) → expr_contains_symbol e s ≡ false → expr_calc_value t e ≡ expr_calc_value t' e
  unfolding expr_contains_symbol expr_calc_value
  contains_symbol_sound (symbol x) h = ap (λ y. y.tri) (agree.others x h)
  contains_symbol_sound (not e) h = ap expr_not (contains_symbol_sound e h)
  contains_symbol_sound (and a b) h =
      ap₂ expr_and (contains_symbol_sound a (ground arith)) (contains_symbol_sound b (ground arith))
  contains_symbol_sound (or a b) h =
      ap₂ expr_or (contains_symbol_sound a (ground arith)) (contains_symbol_sound b (ground arith))
  contains_symbol_sound (comp r a b) h =
      ap (λ o. of_bool (holds r o)) (same_order a b (ground arith) (ground arith))
  contains_symbol_sound _ h = refl

-- Where expr_depends_symbol finds that an expression depends on a BOOLEAN or TRISTATE symbol, the
-- expression is `n` while the symbol is `n`.
pub depends_symbol_sound :
    (t : Table) (e : Expr) (s : Sym)
    → IsCalculated t
    → IsTristateLike (t.get s).type
    → expr_depends_symbol e s ≡ true
    → (t.get s).tri ≡ tri_no
    → expr_calc_value t e ≡ tri_no
unfolding expr_depends_symbol expr_calc_value expr_and
depends_symbol_sound t (symbol x) s c like h off = ground arith
depends_symbol_sound t (and a b) s c like h off =
    ground (arith, depends_symbol_sound t a s c like, depends_symbol_sound t b s c like)
depends_symbol_sound t (comp equal a b) s c like h off =
    ground
      (arith, symbol_order-constant t s tri_mod c like, symbol_order-constant t s tri_yes c like)
depends_symbol_sound t (comp unequal a b) s c like h off =
    ground (arith, symbol_order-constant t s tri_no c like)
depends_symbol_sound t _ s c like h off = absurd (cc)

-- No negation.
abbrev pub IsPositive : Expr → Type 0
IsPositive (not e) = ⊥
IsPositive (and a b) = IsPositive a × IsPositive b
IsPositive (or a b) = IsPositive a × IsPositive b
IsPositive _ = Unit

-- On an expression with no negation expr_trans_bool never raises the value, and the result is `n`
-- exactly where the expression is.
pub trans_bool_sound :
    (t : Table) (e : Expr)
    → IsCalculated t
    → IsPositive e
    → (rank (expr_calc_value t (expr_trans_bool t e)) ≤ rank (expr_calc_value t e))
      × ((expr_calc_value t (expr_trans_bool t e) ≡ tri_no) ↔ (expr_calc_value t e ≡ tri_no))
unfolding expr_trans_bool expr_calc_value expr_and expr_or
trans_bool_sound t (and a b) c h =
    ground (arith, trans_bool_sound t a c h.0, trans_bool_sound t b c h.1)
trans_bool_sound t (or a b) c h =
    ground (arith, trans_bool_sound t a c h.0, trans_bool_sound t b c h.1)
trans_bool_sound t (comp unequal a b) c h = elim (Bool-cases (type_eq (t.get a).type tristate)) [
  | inl is ↦ ground (arith, symbol_order-constant t a tri_no c (inr (ground arith)))
  | inr isnt ↦ rw isnt (omega arith, (λ x. x, λ x. x))
]
trans_bool_sound t (not e) c h = absurd h
trans_bool_sound t _ c h = (omega arith, (λ x. x, λ x. x))
