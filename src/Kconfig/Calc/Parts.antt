-- ===== src/Kconfig/Calc/Parts.antt =====
-- The parts of sym_calc_value of scripts/kconfig/symbol.c end where the calculation of a symbol does.
use lightbuild.Prelude.{ℕ, refl, Bool, Option, none, some, List, [], ◌∷◌}
use lightbuild.Kconfig.Tristate.{Tristate, tri_no, tri_yes, expr_or}
use lightbuild.Kconfig.Symbol.{Sym}
use lightbuild.Kconfig.Expr.{Relation, Expr, symbol, not, and, or, comp, list_end, list, range}
use lightbuild.Kconfig.Store.{Range, DefaultProp, UserSymbol}
use lightbuild.Kconfig.Monad.{M, pure, set}
use lightbuild.Kconfig.Calc.{
  settle, set_changed, get_string, calc_comp, calc_expr, calc_cond, default_prop, range_prop,
  range_val, prompt_value, prompts_value, dependency, sym_calc_visibility,
}
use lightbuild.Kconfig.Calc.Keeps.{Runs}
use lightbuild.Kconfig.Calc.Rules.{
  Runs-pure, Runs-read, Runs-write, Runs-bind, Runs-then, Runs-if, Runs-when, IsQuiet, update-Keeps,
  sym_set_changed-Keeps,
}

module _ (free : Sym → Bool) (n : ℕ) where
  pub set-Runs : (x : Sym) (f : UserSymbol → UserSymbol) → IsQuiet f → Runs free n (set x f)
  unfolding set
  set-Runs x f q = Runs-write free n _ (λ s. update-Keeps free s x f q)

  pub set_changed-Runs : (x : Sym) → Runs free n (set_changed x)
  set_changed-Runs x = Runs-write free n _ (λ s. sym_set_changed-Keeps free s x)

visible-IsQuiet : (v : Tristate) → IsQuiet (λ w. record w { visible = v })
visible-IsQuiet v = record {
  valid = λ u. refl;
  needs = λ u. refl;
  curr = λ u. refl;
  choice = λ u. refl;
  strings = λ u. refl;
  users = λ u. (refl, refl, refl);
}

dir-IsQuiet : (v : Tristate) → IsQuiet (λ w. record w { dir_dep = v })
dir-IsQuiet v = record {
  valid = λ u. refl;
  needs = λ u. refl;
  curr = λ u. refl;
  choice = λ u. refl;
  strings = λ u. refl;
  users = λ u. (refl, refl, refl);
}

rev-IsQuiet : (v : Tristate) → IsQuiet (λ w. record w { rev_dep = v })
rev-IsQuiet v = record {
  valid = λ u. refl;
  needs = λ u. refl;
  curr = λ u. refl;
  choice = λ u. refl;
  strings = λ u. refl;
  users = λ u. (refl, refl, refl);
}

implied-IsQuiet : (v : Tristate) → IsQuiet (λ w. record w { implied = v })
implied-IsQuiet v = record {
  valid = λ u. refl;
  needs = λ u. refl;
  curr = λ u. refl;
  choice = λ u. refl;
  strings = λ u. refl;
  users = λ u. (refl, refl, refl);
}

module _ (free : Sym → Bool) (n : ℕ) (calc : Sym → M (Unit {0}))
    (calc_runs : (x : Sym) → Runs free n (calc x)) where
  pub get_string-Runs : (x : Sym) → Runs free n (get_string calc x)
  unfolding get_string
  get_string-Runs x =
      search (Runs-bind, Runs-then, Runs-if, Runs-read, Runs-pure, calc_runs) depth 12

  pub calc_comp-Runs : (r : Relation) (a b : Sym) → Runs free n (calc_comp calc r a b)
  unfolding calc_comp
  calc_comp-Runs r a b =
      search (Runs-bind, Runs-then, Runs-read, calc_runs, get_string-Runs) depth 12

  pub calc_expr-Runs : (e : Expr) → Runs free n (calc_expr calc e)
  unfolding calc_expr
  calc_expr-Runs (symbol x) = search (Runs-then, Runs-read, calc_runs)
  calc_expr-Runs (and a b) =
      search (Runs-bind, Runs-pure, calc_expr-Runs a, calc_expr-Runs b) depth 12
  calc_expr-Runs (or a b) =
      search (Runs-bind, Runs-pure, calc_expr-Runs a, calc_expr-Runs b) depth 12
  calc_expr-Runs (not e) = search (Runs-bind, Runs-pure, calc_expr-Runs e) depth 12
  calc_expr-Runs (comp r a b) = calc_comp-Runs r a b
  calc_expr-Runs (list_end x) = Runs-pure free n tri_no
  calc_expr-Runs (list e x) = Runs-pure free n tri_no
  calc_expr-Runs (range a b) = Runs-pure free n tri_no

  pub calc_cond-Runs : (c : Option Expr) → Runs free n (calc_cond calc c)
  unfolding calc_cond
  calc_cond-Runs none = Runs-pure free n tri_yes
  calc_cond-Runs (some e) = calc_expr-Runs e

  pub default_prop-Runs : (ps : List DefaultProp) → Runs free n (default_prop calc ps)
  unfolding default_prop
  default_prop-Runs [] = Runs-pure free n none
  default_prop-Runs (p ∷ ps) =
      Runs-bind free n _ _ (calc_cond-Runs p.condition)
        (λ v. Runs-if free n _ _ _ (default_prop-Runs ps) (Runs-pure free n _))

  pub range_prop-Runs : (ps : List Range) → Runs free n (range_prop calc ps)
  unfolding range_prop
  range_prop-Runs [] = Runs-pure free n none
  range_prop-Runs (p ∷ ps) =
      Runs-bind free n _ _ (calc_cond-Runs p.condition)
        (λ v. Runs-if free n _ _ _ (range_prop-Runs ps) (Runs-pure free n _))

  pub range_val-Runs : (x : Sym) (base : ℕ) → Runs free n (range_val calc x base)
  unfolding range_val
  range_val-Runs x base = search (Runs-bind, Runs-then, Runs-read, Runs-pure, calc_runs) depth 12

  pub prompt_value-Runs : (x : Sym) (c : Option Expr) → Runs free n (prompt_value calc x c)
  unfolding prompt_value
  prompt_value-Runs x c = search (Runs-bind, Runs-read, Runs-pure, calc_cond-Runs) depth 12

  pub prompts_value-Runs :
      (x : Sym) (ps : List (Option Expr)) (v : Tristate) → Runs free n (prompts_value calc x ps v)
  unfolding prompts_value
  prompts_value-Runs x [] v = Runs-pure free n v
  prompts_value-Runs x (p ∷ ps) v =
      Runs-bind free n _ _ (prompt_value-Runs x p) (λ w. prompts_value-Runs x ps (expr_or v w))

  optional-Runs :
      (o : Option Expr) (v : Tristate)
      → Runs free n (elim o [ none ↦ pure v | some e ↦ calc_expr calc e ])
  optional-Runs none v = Runs-pure free n v
  optional-Runs (some e) v = calc_expr-Runs e

  dependency-Runs :
      (x : Sym) (v : Tristate) (expr : UserSymbol → Option Expr) (old : UserSymbol → Tristate)
      (put : Tristate → UserSymbol → UserSymbol)
      → ((t : Tristate) → IsQuiet (put t))
      → Runs free n (dependency calc x v expr old put)
  unfolding dependency
  dependency-Runs x v expr old put quiet = Runs-bind free n _ _ (Runs-read free n _) (λ u.
      Runs-bind free n _ _ (optional-Runs (expr u) v) (λ w.
        Runs-bind free n _ _ (Runs-read free n _) (λ type.
          Runs-bind free n _ _ (Runs-read free n _) (λ u'. Runs-when free n _ _ (
            Runs-then free n _ _ (set-Runs free n x _ (quiet (settle type w)))
              (set_changed-Runs free n x))))))

  pub sym_calc_visibility-Runs : (x : Sym) → Runs free n (sym_calc_visibility calc x)
  unfolding sym_calc_visibility
  sym_calc_visibility-Runs x =
      search
        (
          Runs-bind, Runs-then, Runs-read, Runs-when, prompts_value-Runs, set-Runs,
          set_changed-Runs, dependency-Runs, visible-IsQuiet, dir-IsQuiet, rev-IsQuiet,
          implied-IsQuiet,
        )
        depth 14
