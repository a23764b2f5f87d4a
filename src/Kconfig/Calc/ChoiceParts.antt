-- ===== src/Kconfig/Calc/ChoiceParts.antt =====
-- sym_calc_choice, sym_validate_range and set_all_choice_values of scripts/kconfig end where the
-- calculation of a symbol does.
use lightbuild.Prelude.{
  ℕ, ◌≡◌, refl, Bool, true, Option, none, some, List, [], ◌∷◌, Bytes, if◌then◌else◌, arith,
}
use lightbuild.Kconfig.Tristate.{tri_no}
use lightbuild.Kconfig.Symbol.{Sym}
use lightbuild.Kconfig.Strto.{strtoll}
use lightbuild.Kconfig.Store.{Range, DefaultProp, UserSymbol, Store}
use lightbuild.Kconfig.Default.{prop_get_symbol}
use lightbuild.Kconfig.Monad.{M, pure, ◌>>=◌, ◌>>◌, write, set}
use lightbuild.Kconfig.Calc.{user, is_no}
use lightbuild.Kconfig.Calc.Choice.{
  first_visible, store_copy, default_choice, sym_choice_default, all_set, user_choice,
  sym_calc_choice, range_limit, validate_base, sym_validate_range, print_decimal, print_hex,
}
use lightbuild.Kconfig.Calc.Keeps.{Keeps, Runs}
use lightbuild.Kconfig.Calc.Rules.{
  Runs-pure, Runs-read, Runs-write, Runs-bind, Runs-then, Runs-if, IsOwn, update-Keeps_own,
}
use lightbuild.Kconfig.Calc.Parts.{
  set-Runs, calc_cond-Runs, range_prop-Runs, range_val-Runs, sym_calc_visibility-Runs,
}

pub set-Runs_own :
    (free : Sym → Bool) (n : ℕ) (x : Sym) (f : UserSymbol → UserSymbol)
    → free x ≡ true
    → ((u : UserSymbol) → IsOwn f u)
    → Runs free n (set x f)
unfolding set
set-Runs_own free n x f own q =
    Runs-write free n _ (λ s. update-Keeps_own free s x f own (q (s.get x)))

store_copy-Keeps :
    (free : Sym → Bool) (x : Sym) (val : Bytes) (s : Store)
    → free x ≡ true
    → Keeps free s (store_copy x val s)
store_copy-Keeps free x val s own =
    let k =
      update-Keeps_own free s x
        (λ u. record u { curr = record u.curr { val = val }; val_at = s.fresh }) own
        record {
          lighter = omega arith;
          same_type = refl;
          strings = refl;
          users = (refl, refl, refl);
          no_mod = λ h. h;
        } in
    record {
      same_modules = refl;
      same_symbols = k.same_symbols;
      lighter = k.lighter;
      kept = k.kept;
      same_type = k.same_type;
      same_strings = k.same_strings;
      same_users = k.same_users;
      no_mod = k.no_mod;
    }

module _ (free : Sym → Bool) (n : ℕ) where
  pub first_visible-Runs : (xs : List Sym) → Runs free n (first_visible xs)
  unfolding first_visible
  first_visible-Runs [] = Runs-pure free n none
  first_visible-Runs (x ∷ xs) =
      Runs-bind free n _ _ (Runs-read free n _)
        (λ u. Runs-if free n _ _ _ (first_visible-Runs xs) (Runs-pure free n _))

  user_choice-Runs : (d : Option Sym) → Runs free n (user_choice d)
  unfolding user_choice
  user_choice-Runs none = Runs-pure free n none
  user_choice-Runs (some d) = Runs-bind free n _ _ (Runs-read free n _) (λ u. Runs-pure free n _)

module _ (free : Sym → Bool) (n : ℕ) (calc : Sym → M (Unit {0}))
    (calc_runs : (x : Sym) → Runs free n (calc x)) where
  default_choice-Runs : (ps : List DefaultProp) → Runs free n (default_choice calc ps)
  unfolding default_choice
  default_choice-Runs [] = Runs-pure free n none
  default_choice-Runs (p ∷ ps) =
      Runs-bind free n _ _ (calc_cond-Runs free n calc calc_runs p.condition) (λ v.
        Runs-if free n _ _ _ (default_choice-Runs ps)
          (by (prop_get_symbol p) (default_choice-Runs ps)))
    where
      by :
          (o : Option Sym)
          → Runs free n (default_choice calc ps)
          → Runs free n (elim o [
            | none ↦ default_choice calc ps
            | some d ↦
                user d >>= λ u. if is_no u.visible then default_choice calc ps else pure (some d)
          ])
      by none ih = ih
      by (some d) ih =
          Runs-bind free n _ _ (Runs-read free n _)
            (λ u. Runs-if free n _ _ _ ih (Runs-pure free n _))

  sym_choice_default-Runs : (x : Sym) → Runs free n (sym_choice_default calc x)
  unfolding sym_choice_default
  sym_choice_default-Runs x =
      Runs-bind free n _ _ (Runs-read free n _)
        (λ u. Runs-bind free n _ _ (default_choice-Runs u.defaults) (λ d. by d u))
    where
      by :
          (d : Option Sym) (u : UserSymbol)
          → Runs free n {A = Option Sym}
              (elim d [ some y ↦ pure (some y) | none ↦ first_visible u.members ])
      by none u = first_visible-Runs free n u.members
      by (some y) u = Runs-pure free n _

  all_set-Runs : (es : List Sym) (b : Bool) → Runs free n (all_set calc es b)
  unfolding all_set
  all_set-Runs [] b = Runs-pure free n b
  all_set-Runs (e ∷ es) b =
      Runs-then free n _ _ (sym_calc_visibility-Runs free n calc calc_runs e)
        (Runs-bind free n _ _ (Runs-read free n _) (λ u. all_set-Runs es _))

  pub sym_calc_choice-Runs : (x : Sym) → free x ≡ true → Runs free n (sym_calc_choice calc x)
  unfolding sym_calc_choice
  sym_calc_choice-Runs x own = Runs-bind free n _ _ (Runs-read free n _) (λ u.
      Runs-bind free n _ _ (all_set-Runs u.members u.is_set) (λ b.
        Runs-then free n _ _
          (set-Runs free n x _ record {
            valid = λ u. refl;
            needs = λ u. refl;
            curr = λ u. refl;
            choice = λ u. refl;
            strings = λ u. refl;
            users = λ u. (refl, refl, refl);
          })
          (Runs-bind free n _ _ (Runs-read free n _)
            (λ w. Runs-bind free n _ _ (user_choice-Runs free n w.def_choice) by))))
    where
      no_choice :
          (d : Option Sym)
          → Runs free n {A = Option Sym} (elim d [
            | some y ↦ pure (some y)
            | none ↦ set x (λ v. record v { curr = record v.curr { tri = tri_no } }) >> pure none
          ])
      no_choice (some y) = Runs-pure free n _
      no_choice none =
          Runs-then free n _ _
            (set-Runs_own free n x _ own (λ u. record {
              lighter = omega arith;
              same_type = refl;
              strings = refl;
              users = (refl, refl, refl);
              no_mod = λ h b. cc;
            }))
            (Runs-pure free n _)

      by :
          (d : Option Sym)
          → Runs free n {A = Option Sym} (elim d [
            | some y ↦ pure (some y)
            | none ↦ sym_choice_default calc x >>= λ d. elim d [
              | some y ↦ pure (some y)
              | none ↦ set x (λ v. record v { curr = record v.curr { tri = tri_no } }) >> pure none
            ]
          ])
      by (some y) = Runs-pure free n _
      by none = Runs-bind free n _ _ (sym_choice_default-Runs x) no_choice

  range_limit-Runs : (r : Range) (base val : ℕ) → Runs free n (range_limit calc r base val)
  unfolding range_limit
  range_limit-Runs r base val =
      Runs-bind free n _ _ (range_val-Runs free n calc calc_runs r.low base) (λ low.
        Runs-if free n _ _ _
          (Runs-bind free n _ _ (range_val-Runs free n calc calc_runs r.high base)
            (λ high. Runs-pure free n _))
          (Runs-pure free n _))

  validate_base-Runs :
      (x : Sym) (base : ℕ) (print : ℕ → Bytes)
      → free x ≡ true
      → Runs free n (validate_base calc x base print)
  unfolding validate_base
  validate_base-Runs x base print own =
      Runs-bind free n _ _ (Runs-read free n _)
        (λ u. Runs-bind free n _ _ (range_prop-Runs free n calc calc_runs u.ranges) by)
    where
      copy :
          (l : Option ℕ)
          → Runs free n (elim l [ none ↦ pure tt | some v ↦ write (store_copy x (print v)) ])
      copy none = Runs-pure free n tt
      copy (some v) = Runs-write free n _ (λ s. store_copy-Keeps free x (print v) s own)

      by :
          (r : Option Range)
          → Runs free n (elim r [
            | none ↦ pure tt
            | some prop ↦ do
              w ← user x
              limit ← range_limit calc prop base (strtoll base w.curr.val).value
              elim limit [ none ↦ pure tt | some v ↦ write (store_copy x (print v)) ]
          ])
      by none = Runs-pure free n tt
      by (some r) =
          Runs-bind free n _ _ (Runs-read free n _)
            (λ w. Runs-bind free n _ _ (range_limit-Runs r base _) copy)

  pub sym_validate_range-Runs : (x : Sym) → free x ≡ true → Runs free n (sym_validate_range calc x)
  unfolding sym_validate_range
  sym_validate_range-Runs x own = Runs-bind free n _ _ (Runs-read free n _) (λ u.
      Runs-if free n _ _ _ (validate_base-Runs x 10 print_decimal own)
        (Runs-if free n _ _ _ (validate_base-Runs x 16 print_hex own) (Runs-pure free n tt)))
