-- ===== src/Kconfig/Calc/ValueParts.antt =====
-- The parts of sym_calc_value of scripts/kconfig/symbol.c that set the new value.
use lightbuild.Prelude.{
  ℕ, ◌≡◌, ◌≢◌, refl, Bool, true, Option, none, some, List, [], ◌∷◌, Bytes, arith,
}
use lightbuild.Kconfig.Tristate.{Tristate, tri_no, tri_mod, tri_yes, expr_and}
use lightbuild.Kconfig.Symbol.{boolean, string, letter, Sym}
use lightbuild.Kconfig.Store.{DefaultProp, UserSymbol, Store, sym_get_type, type_in}
use lightbuild.Kconfig.Default.{prop_get_symbol}
use lightbuild.Kconfig.Monad.{M, pure, ◌>>=◌, ◌>>◌, read}
use lightbuild.Kconfig.Calc.{user, settle, calc_cond}
use lightbuild.Kconfig.Calc.Value.{
  Value, no_at, null_at, start_value, set_write, set_all_changed, pass_on, default_tristate,
  free_tristate, new_tristate, default_text, new_text, take_choice, note_change,
}
use lightbuild.Kconfig.Calc.Keeps.{Keeps, Keeps-refl, Runs}
use lightbuild.Kconfig.Calc.Rules.{
  bind_run, Runs-pure, Runs-read, Runs-write, Runs-bind, Runs-then, Runs-if, Runs-when,
}
use lightbuild.Kconfig.Calc.RulesTo.{RunsTo, RunsTo-pure, RunsTo-bind, RunsTo-then, RunsTo-if}
use lightbuild.Kconfig.Calc.Parts.{set-Runs, set_changed-Runs, calc_cond-Runs, default_prop-Runs}
use lightbuild.Kconfig.Calc.ChoiceParts.{set-Runs_own, sym_calc_choice-Runs}

module _ (free : Sym → Bool) (n : ℕ) where
  pub set_write-Runs : (x : Sym) → Runs free n (set_write x)
  set_write-Runs x = set-Runs free n x _ record {
    valid = λ u. refl;
    needs = λ u. refl;
    curr = λ u. refl;
    choice = λ u. refl;
    strings = λ u. refl;
    users = λ u. (refl, refl, refl);
  }

  set_all_changed-Runs : (xs : List Sym) → Runs free n (set_all_changed xs)
  unfolding set_all_changed
  set_all_changed-Runs [] = Runs-pure free n tt
  set_all_changed-Runs (x ∷ xs) =
      Runs-then free n _ _ (set_changed-Runs free n x) (set_all_changed-Runs xs)

  pub pass_on-Runs : (x : Sym) (es : List Sym) → Runs free n (pass_on x es)
  unfolding pass_on
  pass_on-Runs x [] = Runs-pure free n tt
  pass_on-Runs x (e ∷ es) = Runs-bind free n _ _ (Runs-read free n _) (λ u.
      Runs-bind free n _ _ (Runs-read free n _) (λ w.
        Runs-then free n _ _ (Runs-when free n _ _ (set_write-Runs e)) (
          Runs-bind free n _ _ (Runs-read free n _) (λ v.
            Runs-then free n _ _ (Runs-when free n _ _ (set_changed-Runs free n e))
              (pass_on-Runs x es)))))

  modules_val-Keeps :
      (s : Store) → Keeps free s (record s { modules_val = (s.get s.modules_sym).curr.tri })
  modules_val-Keeps s = record {
    same_symbols = refl;
    same_modules = refl;
    lighter = λ x. omega arith;
    kept = λ x f v. (v, refl, refl);
    same_type = λ x. refl;
    same_strings = λ x. refl;
    same_users = λ p x. (refl, refl, refl);
    no_mod = λ h. h;
  }

  pub note_change-Runs : (x : Sym) (old : UserSymbol) → Runs free n (note_change x old)
  unfolding note_change
  note_change-Runs x old = Runs-bind free n _ _ (Runs-read free n _) (λ u.
      Runs-bind free n _ _ (Runs-read free n _) (λ m.
        Runs-bind free n _ _ (Runs-read free n _) (λ all. Runs-when free n _ _ (
          Runs-then free n _ _ (set_changed-Runs free n x) (
            Runs-when free n _ _ (
              Runs-then free n _ _ (set_all_changed-Runs all)
                (Runs-write free n _ modules_val-Keeps)))))))

-- The value is not `m` where the symbol is BOOLEAN.
abbrev pub NotMod : Sym → Value → Store → Type 0
NotMod x v t = (t.get x).curr.type ≡ boolean → v.tri ≢ tri_mod

abbrev pub IsNo : Value → Store → Type 0
IsNo v t = v.tri ≡ tri_no

settle-ne : (v : Tristate) → settle boolean v ≢ tri_mod
settle-ne tri_no = λ e. cc
settle-ne tri_mod = λ e. cc
settle-ne tri_yes = λ e. cc

settle-NotMod :
    (x : Sym) (v : Tristate) (t : Store)
    → NotMod x (record { val = letter tri_no; at = no_at; tri = settle (sym_get_type t x) v }) t
unfolding sym_get_type type_in
settle-NotMod x v t b = rw b (settle-ne v)

settle-RunsTo :
    (free : Sym → Bool) (n : ℕ) (x : Sym) (v : Tristate)
    → RunsTo free n
        (read (λ s. sym_get_type s x) >>= λ type.
          pure (record { val = letter tri_no; at = no_at; tri = settle type v }))
        (NotMod x)
unfolding read pure
settle-RunsTo free n x v = record {
  run = λ s c l. (
    record { val = letter tri_no; at = no_at; tri = settle (sym_get_type s x) v },
    s,
    bind_run _ _ s s (sym_get_type s x) _ refl refl,
    Keeps-refl free s,
    settle-NotMod x v s,
  );
}

module _ (free : Sym → Bool) (n : ℕ) (calc : Sym → M (Unit {0}))
    (calc_runs : (x : Sym) → Runs free n (calc x)) where
  default_tristate-Runs : (x : Sym) → Runs free n (default_tristate calc x)
  unfolding default_tristate
  default_tristate-Runs x = Runs-bind free n _ _ (Runs-read free n _) (λ u.
      Runs-then free n _ _ (Runs-when free n _ _ (set_write-Runs free n x)) (
        Runs-if free n _ _ _ (Runs-pure free n _) (
          Runs-bind free n _ _ (default_prop-Runs free n calc calc_runs u.defaults) (λ prop.
            Runs-bind free n _ _ (own_default prop) (λ own.
              Runs-then free n _ _ (Runs-when free n _ _ (set_write-Runs free n x)) (
                Runs-bind free n _ _ (Runs-read free n _) (λ w.
                  Runs-if free n _ _ _ (Runs-pure free n _)
                    (Runs-then free n _ _ (set_write-Runs free n x) (Runs-pure free n _)))))))))
    where
      own_default :
          (prop : Option (DefaultProp × Tristate))
          → Runs free n (elim prop [
            | none ↦ pure tri_no
            | some (p, v) ↦ calc_cond calc p.value >>= λ d. pure (expr_and d v)
          ])
      own_default none = Runs-pure free n tri_no
      own_default (some (p, v)) =
          Runs-bind free n _ _ (calc_cond-Runs free n calc calc_runs p.value)
            (λ d. Runs-pure free n _)

  free_tristate-Runs : (x : Sym) → Runs free n (free_tristate calc x)
  unfolding free_tristate
  free_tristate-Runs x = Runs-bind free n _ _ (Runs-read free n _) (λ u.
      Runs-bind free n _ _ (Runs-if free n _ _ _ (Runs-pure free n _) (default_tristate-Runs x))
        (λ v. Runs-bind free n _ _ (Runs-read free n _) (λ w. Runs-pure free n _)))

  pub new_tristate-RunsTo : (x : Sym) → RunsTo free n (new_tristate calc x) (NotMod x)
  unfolding new_tristate
  new_tristate-RunsTo x = RunsTo-bind free n _ _ (NotMod x) (Runs-read free n _) (λ u.
      RunsTo-bind free n _ _ (NotMod x)
        (Runs-if free n _ _ _ (Runs-bind free n _ _ (Runs-read free n _) (λ c. Runs-pure free n _))
          (free_tristate-Runs x))
        (λ v. settle-RunsTo free n x v))

  default_text-RunsTo :
      (p : Option (DefaultProp × Tristate)) (x : Sym) → RunsTo free n (default_text calc p x) IsNo
  unfolding default_text
  default_text-RunsTo none x = RunsTo-pure free n _ IsNo (λ s. refl)
  default_text-RunsTo (some (p, v)) x = by (prop_get_symbol p)
    where
      by :
          (o : Option Sym)
          → RunsTo free n {A = Value}
              (elim o [
                | none ↦ pure (start_value string)
                | some ds ↦ do
                  set_write x
                  calc ds
                  d ← user ds
                  pure (record { val = d.curr.val; at = d.val_at; tri = tri_no })
              ])
              IsNo
      by none = RunsTo-pure free n _ IsNo (λ s. refl)
      by (some ds) = RunsTo-then free n _ _ IsNo (set_write-Runs free n x) (
          RunsTo-then free n _ _ IsNo (calc_runs ds) (
            RunsTo-bind free n _ _ IsNo (Runs-read free n _)
              (λ d. RunsTo-pure free n _ IsNo (λ s. refl))))

  pub new_text-RunsTo : (x : Sym) → RunsTo free n (new_text calc x) IsNo
  unfolding new_text
  new_text-RunsTo x = RunsTo-bind free n _ _ IsNo (Runs-read free n _) (λ u.
      RunsTo-if free n _ _ _ IsNo (RunsTo-pure free n _ IsNo (λ s. user_text u.def_val u.def_at)) (
        RunsTo-bind free n _ _ IsNo (default_prop-Runs free n calc calc_runs u.defaults)
          (λ p. default_text-RunsTo p x)))
    where
      user_text :
          (o : Option Bytes) (at : ℕ)
          → (elim o as (λ _. Value) [
            | none ↦ record { val = []; at = null_at; tri = tri_no }
            | some val ↦ record { val = val; at = at; tri = tri_no }
          ]).tri
            ≡ tri_no
      user_text none at = refl
      user_text (some v) at = refl

  pub take_choice-Runs : (x : Sym) → free x ≡ true → Runs free n (take_choice calc x)
  unfolding take_choice
  take_choice-Runs x own = Runs-bind free n _ _ (Runs-read free n _) (λ u. Runs-when free n _ _ (
      Runs-bind free n _ _ (sym_calc_choice-Runs free n calc calc_runs x own) (λ d.
        set-Runs_own free n x _ own (λ u. record {
          lighter = omega arith;
          same_type = refl;
          strings = refl;
          users = (refl, refl, refl);
          no_mod = λ h. h;
        }))))
