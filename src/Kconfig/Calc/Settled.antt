-- ===== src/Kconfig/Calc/Settled.antt =====
-- What expr_calc_value of scripts/kconfig/expr.c and sym_get_range_prop and sym_get_range_val of symbol.c
-- give where every symbol has been calculated.
use lightbuild.Prelude.{
  ℕ, ◌≡◌, refl, ap, Bool, true, false, Option, none, some, List, [], ◌∷◌, if◌then◌else◌, Bool-cases,
  inl, inr,
}
use lightbuild.Kconfig.Tristate.{tri_mod, tri_eq}
use lightbuild.Kconfig.Symbol.{
  SymbolType, unknown, boolean, tristate, int, hex, string, type_eq, Sym, sym_get_string_value,
}
use lightbuild.Kconfig.Strto.{strtoll}
use lightbuild.Kconfig.Expr.{Expr, symbol, not, and, or, comp, list_end, list, range}
use lightbuild.Kconfig.Expr.Value.{calc_value, expr_calc_value, symbol_order}
use lightbuild.Kconfig.Store.{Range, Store, table}
use lightbuild.Kconfig.Default.{is_tristate_like}
use lightbuild.Kconfig.Monad.{M, pure, ◌>>=◌, ◌>>◌, read}
use lightbuild.Kconfig.Assign.Strings.{active_range, sym_get_range_val, range_base}
use lightbuild.Kconfig.Calc.{
  is_no, get_string, calc_comp, calc_expr, calc_cond, range_prop, range_val,
}
use lightbuild.Kconfig.Calc.Rules.{bind_run}
use lightbuild.Kconfig.Calc.Stable.{string_plain, string_letter, string_mod}

-- Code that leaves the store as it is.
abbrev Gives : {A : Type 0} → M A → Store → A → Type 0
Gives m s a = m s ≡ some (a, s)

pub Gives-bind :
    {A B : Type 0} (m : M A) (k : A → M B) (s : Store) (a : A) (b : B)
    → Gives m s a
    → Gives (k a) s b
    → Gives (m >>= k) s b
Gives-bind m k s a b h h' = bind_run m k s s a (some (b, s)) h h'

pub Gives-read :
    {A B : Type 0} (g : Store → A) (k : A → M B) (s : Store) (b : B)
    → Gives (k (g s)) s b
    → Gives (read g >>= k) s b
unfolding read
Gives-read g k s b h = bind_run (read g) k s s (g s) (some (b, s)) refl h

pub Gives-pure : {A : Type 0} (s : Store) (a b : A) → a ≡ b → Gives (pure a) s b
unfolding pure
Gives-pure s a b e = ap (λ v. some (v, s)) e

Gives-store : {A : Type 0} (g : Store → A) (s : Store) (b : A) → g s ≡ b → Gives (read g) s b
unfolding read
Gives-store g s b e = ap (λ v. some (v, s)) e

-- Every symbol has been calculated.
abbrev pub IsSettled : (Sym → M (Unit {0})) → Store → Type 0
IsSettled calc s = (y : Sym) → calc y s ≡ some (tt, s)

module _ (calc : Sym → M (Unit {0})) (s : Store) (settled : IsSettled calc s) where
  string_kind :
      (x : Sym) (like is_mod : Bool)
      → is_tristate_like (s.get x).curr.type ≡ like
      → tri_eq (s.get x).curr.tri tri_mod ≡ is_mod
      → Gives (get_string calc x) s (sym_get_string_value (table s) x)
  unfolding get_string ◌>>◌ sym_get_string_value
  string_kind x false is_mod l m =
      Gives-read (λ r. r.get x) _ s _ (rw l (Gives-pure s _ _ (string_plain _ (s.get x).curr _ l)))
  string_kind x true false l m =
      Gives-read (λ r. r.get x) _ s _
        (rw (l, m) (Gives-pure s _ _ (string_letter _ (s.get x).curr _ l m)))
  string_kind x true true l m =
      Gives-read (λ r. r.get x) _ s _
        (rw (l, m)
          (Gives-bind (read (λ r. r.modules_sym) >>= calc) _ s tt _
            (Gives-read (λ r. r.modules_sym) calc s tt (settled s.modules_sym))
            (Gives-store _ s _ (string_mod _ (s.get x).curr _ l m))))

  settled_string : (x : Sym) → Gives (get_string calc x) s (sym_get_string_value (table s) x)
  settled_string x = string_kind x _ _ refl refl

  settled_expr : (e : Expr) → Gives (calc_expr calc e) s (expr_calc_value (table s) e)
  unfolding calc_expr calc_comp ◌>>◌ expr_calc_value symbol_order read pure
  settled_expr (symbol x) = Gives-bind (calc x) _ s tt _ (settled x) refl
  settled_expr (and a b) =
      Gives-bind (calc_expr calc a) _ s _ _ (settled_expr a)
        (Gives-bind (calc_expr calc b) _ s _ _ (settled_expr b) refl)
  settled_expr (or a b) =
      Gives-bind (calc_expr calc a) _ s _ _ (settled_expr a)
        (Gives-bind (calc_expr calc b) _ s _ _ (settled_expr b) refl)
  settled_expr (not a) = Gives-bind (calc_expr calc a) _ s _ _ (settled_expr a) refl
  settled_expr (comp r a b) = Gives-bind (calc a) _ s tt _ (settled a) (
      Gives-bind (calc b) _ s tt _ (settled b) (
        Gives-bind (get_string calc a) _ s _ _ (settled_string a)
          (Gives-bind (get_string calc b) _ s _ _ (settled_string b) refl)))
  settled_expr (list_end x) = refl
  settled_expr (list a x) = refl
  settled_expr (range a b) = refl

  settled_cond : (e : Option Expr) → Gives (calc_cond calc e) s (calc_value (table s) e)
  unfolding calc_cond pure
  settled_cond none = refl
  settled_cond (some e) = settled_expr e

  pub settled_range : (rs : List Range) → Gives (range_prop calc rs) s (active_range (table s) rs)
  unfolding range_prop pure
  settled_range [] = refl
  settled_range (prop ∷ next) =
      Gives-bind (calc_cond calc prop.condition) _ s _ _ (settled_cond prop.condition)
        (elim (Bool-cases (is_no (calc_value (table s) prop.condition))) [
          | inl out ↦ rw out (settled_range next)
          | inr active ↦ rw active refl
        ])

  pub settled_val :
      (x : Sym) (base : ℕ) → Gives (range_val calc x base) s (sym_get_range_val s x base)
  unfolding range_val ◌>>◌ sym_get_range_val
  settled_val x base = Gives-bind (calc x) _ s tt _ (settled x) (
      Gives-read (λ r. r.get x) _ s _
        (Gives-pure s _ _
          (ap (λ b. (strtoll b (s.get x).curr.val).value) (by (s.get x).curr.type))))
    where
      by :
          (type : SymbolType)
          → (if type_eq type int then 10 else if type_eq type hex then 16 else base)
            ≡ range_base type base
      by int = refl
      by hex = refl
      by unknown = refl
      by boolean = refl
      by tristate = refl
      by string = refl
