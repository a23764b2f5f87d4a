-- ===== src/Kconfig/Calc.antt =====
-- expr_calc_value of scripts/kconfig/expr.c and the parts of sym_calc_value in symbol.c, as they
-- call one another: over any function that calculates a symbol. Messages are left out.
pub mod Choice
pub mod Value
pub mod Keeps
pub mod Rules
pub mod RulesTo
pub mod Parts
pub mod ChoiceParts
pub mod ValueParts
pub mod Sound
pub mod Fuel
pub mod Total
pub mod Stable
pub mod Print
pub mod Refine
pub mod Clamp
pub mod Settled
pub mod Setters
mod Tests
use lightbuild.Prelude.{
  ℕ, suc, Bool, true, false, ◌&&◌, ◌||◌, Option, none, some, List, [], ◌∷◌, Bytes, leb, ◌==◌,
  if◌then◌else◌,
}
use lightbuild.Kconfig.Tristate.{
  Tristate, tri_no, tri_mod, tri_yes, tri_eq, expr_and, expr_or, expr_not, of_bool,
}
use lightbuild.Kconfig.Symbol.{
  SymbolType, boolean, tristate, int, hex, type_eq, letter, tristate_string, Sym, Symbol,
}
use lightbuild.Kconfig.Strto.{strtoll, signed_key}
use lightbuild.Kconfig.Expr.{Relation, Expr, symbol, not, and, or, comp, list_end, list, range}
use lightbuild.Kconfig.Expr.Value.{value_order, holds}
use lightbuild.Kconfig.Store.{Range, DefaultProp, UserSymbol, Store, sym_get_type, sym_set_changed}
use lightbuild.Kconfig.Default.{prop_get_symbol, is_tristate_like}
use lightbuild.Kconfig.Monad.{M, pure, ◌>>=◌, ◌>>◌, read, write, set, when}

abbrev pub user : Sym → M UserSymbol
user x = read (λ s. s.get x)

abbrev pub is_no : Tristate → Bool
is_no v = tri_eq v tri_no

abbrev pub negate : Bool → Bool
negate b = if b then false else true

-- mod becomes yes where the symbol counts as BOOLEAN.
abbrev pub settle : SymbolType → Tristate → Tristate
settle type v = if tri_eq v tri_mod && type_eq type boolean then tri_yes else v

abbrev pub set_changed : Sym → M (Unit {0})
set_changed x = write (sym_set_changed x)

module _ (calc : Sym → M (Unit {0})) where
  -- sym_get_string_value.
  unfoldable pub get_string : Sym → M Bytes
  get_string x = do
    u ← user x
    if is_tristate_like u.curr.type
        then if tri_eq u.curr.tri tri_mod
          then read (λ s. s.modules_sym)
            >>= calc
            >> read (λ s. tristate_string tri_mod (s.get s.modules_sym).curr.tri)
          else pure (letter u.curr.tri)
        else pure u.curr.val

  -- The cases of the comparisons.
  unfoldable pub calc_comp : Relation → Sym → Sym → M Tristate
  calc_comp r a b = do
    calc a
    calc b
    str1 ← get_string a
    str2 ← get_string b
    read (λ s. of_bool (holds r (value_order (s.get a).curr.type str1 (s.get b).curr.type str2)))

  unfoldable pub calc_expr : Expr → M Tristate
  calc_expr (symbol x) = calc x >> read (λ s. (s.get x).curr.tri)
  calc_expr (and a b) = calc_expr a >>= λ v. calc_expr b >>= λ w. pure (expr_and v w)
  calc_expr (or a b) = calc_expr a >>= λ v. calc_expr b >>= λ w. pure (expr_or v w)
  calc_expr (not e) = calc_expr e >>= λ v. pure (expr_not v)
  calc_expr (comp r a b) = calc_comp r a b
  calc_expr (list_end x) = pure tri_no
  calc_expr (list e x) = pure tri_no
  calc_expr (range a b) = pure tri_no

  unfoldable pub calc_cond : Option Expr → M Tristate
  calc_cond none = pure tri_yes
  calc_cond (some e) = calc_expr e

  -- sym_get_default_prop, with the value of the condition.
  unfoldable pub default_prop : List DefaultProp → M (Option (DefaultProp × Tristate))
  default_prop [] = pure none
  default_prop (prop ∷ next) =
      calc_cond prop.condition >>= λ v. if is_no v then default_prop next else pure (some (prop, v))

  -- sym_get_range_prop.
  unfoldable pub range_prop : List Range → M (Option Range)
  range_prop [] = pure none
  range_prop (prop ∷ next) =
      calc_cond prop.condition >>= λ v. if is_no v then range_prop next else pure (some prop)

  -- sym_get_range_val.
  unfoldable pub range_val : Sym → ℕ → M ℕ
  range_val x base = do
    calc x
    u ← user x
    pure
        (strtoll
          (if type_eq u.curr.type int then 10 else if type_eq u.curr.type hex then 16 else base)
          u.curr.val).value

  -- The visibility of one prompt.
  unfoldable pub prompt_value : Sym → Option Expr → M Tristate
  prompt_value x condition = do
    v ← calc_cond condition
    u ← user x
    c ← user u.choice
    pure (
        if u.is_choice_value
          && (type_eq u.curr.type tristate && (tri_eq v tri_mod && tri_eq c.curr.tri tri_yes))
        then tri_no
        else v)

  unfoldable pub prompts_value : Sym → List (Option Expr) → Tristate → M Tristate
  prompts_value x [] tri = pure tri
  prompts_value x (p ∷ ps) tri = prompt_value x p >>= λ v. prompts_value x ps (expr_or tri v)

  -- A dependency of a symbol that is no choice value: its value, and the flags where it has changed.
  unfoldable pub dependency :
      Sym
      → Tristate
      → (UserSymbol → Option Expr)
      → (UserSymbol → Tristate)
      → (Tristate → UserSymbol → UserSymbol)
      → M (Unit {0})
  dependency x default expr old put = do
    u ← user x
    v ← elim (expr u) [ none ↦ pure default | some e ↦ calc_expr e ]
    type ← read (λ s. sym_get_type s x)
    u' ← user x
    when (negate (tri_eq (old u') (settle type v))) (set x (put (settle type v)) >> set_changed x)

  unfoldable pub sym_calc_visibility : Sym → M (Unit {0})
  sym_calc_visibility x = do
    u ← user x
    v ← prompts_value x u.prompts tri_no
    off ← read (λ s. negate (type_eq (s.get x).curr.type tristate) || is_no s.modules_val)
    let tri = if tri_eq v tri_mod && off then tri_yes else v
    u' ← user x
    when (negate (tri_eq u'.visible tri)) (set x (λ w. record w { visible = tri }) >> set_changed x)
    when (negate u'.is_choice_value) do
      dependency x tri_yes (λ w. w.dir_dep_expr) (λ w. w.dir_dep) (λ t w. record w { dir_dep = t })
      dependency x tri_no (λ w. w.rev_dep_expr) (λ w. w.rev_dep) (λ t w. record w { rev_dep = t })
      dependency x tri_no (λ w. w.implied_expr) (λ w. w.implied) (λ t w. record w { implied = t })
