-- ===== src/Kconfig/Expr/Samples.antt =====
-- A small symbol table for runs of scripts/kconfig/expr.c.
use lightbuild.Prelude.{
  zero, suc, ◌≡◌, ◌≢◌, refl, sym, subst, ◌∙◌, true, false, arith, none, inl, inr, [],
}
use lightbuild.Kconfig.Tristate.{Tristate, tri_no, tri_mod, tri_yes, tri_eq}
use lightbuild.Kconfig.Symbol.{
  boolean, tristate, Symbol, Sym, Table, IsCalculated, symbol_of, constant_symbol,
}
use lightbuild.Kconfig.Expr.{equal}
use lightbuild.Kconfig.Expr.Value.{symbol_order, holds}
use lightbuild.Kconfig.Expr.Dups.Rules.{ConstantsDiffer}
use lightbuild.Kconfig.Expr.Compare.Meaning.{IsTyped, symbol-test}

-- A TRISTATE symbol, here `m`, and a BOOLEAN one, `y`, which is also MODULES.
abbrev pub sym_a : Sym
sym_a = 3

abbrev pub sym_b : Sym
sym_b = 4

abbrev pub boolean_b : Symbol
boolean_b = record { name = none; type = boolean; val = []; tri = tri_yes; is_const = false }

abbrev pub sample_get : Tristate → Sym → Symbol
sample_get v zero = constant_symbol tri_no
sample_get v (suc zero) = constant_symbol tri_mod
sample_get v (suc (suc zero)) = constant_symbol tri_yes
sample_get v (suc (suc (suc zero))) = record {
  name = none;
  type = tristate;
  val = [];
  tri = v;
  is_const = false;
}
sample_get v _ = boolean_b

abbrev pub sample : Tristate → Table
sample v = record { get = sample_get v; modules_sym = sym_b }

pub sample-constants : (v u : Tristate) → sample_get v (symbol_of u) ≡ constant_symbol u
sample-constants v tri_no = refl
sample-constants v tri_mod = refl
sample-constants v tri_yes = refl

pub sample-boolean_mod :
    (v : Tristate) (s : Sym) → (sample_get v s).type ≡ boolean → (sample_get v s).tri ≢ tri_mod
sample-boolean_mod v zero h = λ e. cc
sample-boolean_mod v (suc zero) h = λ e. cc
sample-boolean_mod v (suc (suc zero)) h = λ e. cc
sample-boolean_mod v (suc (suc (suc zero))) h = λ e. cc
sample-boolean_mod v (suc (suc (suc (suc s)))) h = λ e. cc

pub sample-IsCalculated : (v : Tristate) → IsCalculated (sample v)
sample-IsCalculated v = record {
  constants = sample-constants v;
  boolean_mod = sample-boolean_mod v;
  modules_off = λ s h off. cc;
}

pub sample-IsTyped : (v : Tristate) (s : Sym) → IsTyped (sample v) s
sample-IsTyped v zero = inr (tri_no, refl)
sample-IsTyped v (suc zero) = inr (tri_mod, refl)
sample-IsTyped v (suc (suc zero)) = inr (tri_yes, refl)
sample-IsTyped v (suc (suc (suc zero))) = inl (inr refl)
sample-IsTyped v (suc (suc (suc (suc s)))) = inl (inl refl)

pub sample_const :
    (v : Tristate) (s : Sym) → (sample_get v s).is_const ≡ true → (u : Tristate) × (s ≡ symbol_of u)
sample_const v zero h = (tri_no, refl)
sample_const v (suc zero) h = (tri_mod, refl)
sample_const v (suc (suc zero)) h = (tri_yes, refl)
sample_const v (suc (suc (suc zero))) h = absurd (cc)
sample_const v (suc (suc (suc (suc s)))) h = absurd (cc)

pub tri_distinct :
    (x u w : Tristate) → symbol_of u ≢ symbol_of w → tri_eq x u ≡ true → tri_eq x w ≡ false
tri_distinct x u w ne h = ground arith

pub sample-ConstantsDiffer : (v : Tristate) → ConstantsDiffer (sample v)
sample-ConstantsDiffer v a b d hb hd ne eq =
    let (u, ub) = sample_const v b hb in
    let (w, wd) = sample_const v d hd in
    let test =
      λ (r : Tristate). symbol-test (sample v) (sample-IsCalculated v) a r (sample-IsTyped v a) in
    subst (λ x. holds equal (symbol_order (sample v) a x) ≡ false) (sym wd)
      (test w
        ∙ tri_distinct (sample_get v a).tri u w (λ e. ne (ub ∙ e ∙ sym wd))
            (sym (test u) ∙ subst (λ x. holds equal (symbol_order (sample v) a x) ≡ true) ub eq))
