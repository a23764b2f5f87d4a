-- ===== src/Kconfig/Calc/Stable.antt =====
-- What stays of the value of an expression of scripts/kconfig/expr.c while symbols are calculated.
use lightbuild.Prelude.{◌≡◌, refl, ap, true, false, arith}
use lightbuild.Kconfig.Tristate.{Tristate, tri_no, tri_mod, tri_yes, tri_eq}
use lightbuild.Kconfig.Symbol.{
  SymbolType, letter, tristate_string, Sym, Symbol, sym_get_string_value, string_of, unknown,
  boolean, tristate, int, hex, string,
}
use lightbuild.Kconfig.Expr.{Expr, symbol, not, and, or, comp, list_end, list, range}
use lightbuild.Kconfig.Expr.Value.{symbol_order, expr_calc_value}
use lightbuild.Kconfig.Store.{Store, table}
use lightbuild.Kconfig.Default.{is_tristate_like}
use lightbuild.Kconfig.Calc.Keeps.{Keeps}
use lightbuild.Kconfig.Calc.Fuel.{frozen}

-- The string value of a symbol reads the symbol and, where that is `m`, modules_sym.
abbrev pub IsReadString : Store → Sym → Type 0
IsReadString s x =
    ((s.get x).is_valid ≡ true)
    × ((s.get x).curr.tri ≡ tri_mod
        → is_tristate_like (s.get x).curr.type ≡ true
        → (s.get s.modules_sym).is_valid ≡ true)

-- What an expression reads is valid.
unfoldable pub IsRead : Store → Expr → Type 0
IsRead s (symbol x) = (s.get x).is_valid ≡ true
IsRead s (and a b) = IsRead s a × IsRead s b
IsRead s (or a b) = IsRead s a × IsRead s b
IsRead s (not e) = IsRead s e
IsRead s (comp r a b) = IsReadString s a × IsReadString s b
IsRead s (list_end x) = Unit {0}
IsRead s (list e x) = Unit {0}
IsRead s (range a b) = Unit {0}

tristate_string-same :
    (v m n : Tristate) → (v ≡ tri_mod → m ≡ n) → tristate_string v m ≡ tristate_string v n
tristate_string-same tri_no m n h = refl
tristate_string-same tri_mod m n h = ap (tristate_string tri_mod) (h refl)
tristate_string-same tri_yes m n h = refl

string_of-same :
    (ty : SymbolType) (c : Symbol) (m n : Tristate)
    → (c.tri ≡ tri_mod → is_tristate_like ty ≡ true → m ≡ n)
    → string_of ty c m ≡ string_of ty c n
string_of-same boolean c m n h = tristate_string-same c.tri m n (λ e. h e refl)
string_of-same tristate c m n h = tristate_string-same c.tri m n (λ e. h e refl)
string_of-same unknown c m n h = refl
string_of-same int c m n h = refl
string_of-same hex c m n h = refl
string_of-same string c m n h = refl

pub string_plain :
    (ty : SymbolType) (c : Symbol) (m : Tristate)
    → is_tristate_like ty ≡ false
    → c.val ≡ string_of ty c m
string_plain ty c m h = ground arith

pub string_letter :
    (ty : SymbolType) (c : Symbol) (m : Tristate)
    → is_tristate_like ty ≡ true
    → tri_eq c.tri tri_mod ≡ false
    → letter c.tri ≡ string_of ty c m
string_letter ty c m h e = ground arith

pub string_mod :
    (ty : SymbolType) (c : Symbol) (m : Tristate)
    → is_tristate_like ty ≡ true
    → tri_eq c.tri tri_mod ≡ true
    → tristate_string tri_mod m ≡ string_of ty c m
string_mod ty c m h e = ground arith

module _ (s t : Store) (k : Keeps frozen s t) where
  pub valid_kept : (x : Sym) → (s.get x).is_valid ≡ true → (t.get x).is_valid ≡ true
  valid_kept x v = (k.kept x refl v).0

  pub curr_kept : (x : Sym) → (s.get x).is_valid ≡ true → (t.get x).curr ≡ (s.get x).curr
  curr_kept x v = (k.kept x refl v).1

  pub string_kept :
      (x : Sym)
      → IsReadString s x
      → (sym_get_string_value (table t) x ≡ sym_get_string_value (table s) x) × IsReadString t x
  unfolding sym_get_string_value
  string_kept x (v, m) =
      let same = curr_kept x v in
      (
        rw (same, k.same_modules)
            (string_of-same (s.get x).curr.type (s.get x).curr _ _
              (λ e l. ap (λ c. c.tri) (curr_kept s.modules_sym (m e l)))),
        (valid_kept x v, rw (same, k.same_modules) (λ e l. valid_kept s.modules_sym (m e l))),
      )

  pub value_kept :
      (e : Expr)
      → IsRead s e
      → (expr_calc_value (table t) e ≡ expr_calc_value (table s) e) × IsRead t e
  unfolding IsRead expr_calc_value symbol_order
  value_kept (symbol x) v = (ap (λ c. c.tri) (curr_kept x v), valid_kept x v)
  value_kept (and a b) (r, q) =
      let (e, r') = value_kept a r in let (h, q') = value_kept b q in (rw (e, h) refl, (r', q'))
  value_kept (or a b) (r, q) =
      let (e, r') = value_kept a r in let (h, q') = value_kept b q in (rw (e, h) refl, (r', q'))
  value_kept (not a) r = let (e, r') = value_kept a r in (rw e refl, r')
  value_kept (comp c a b) (r, q) =
      let (e, r') = string_kept a r in
      let (h, q') = string_kept b q in (rw (e, h, curr_kept a r.0, curr_kept b q.0) refl, (r', q'))
  value_kept (list_end x) r = (refl, r)
  value_kept (list a x) r = (refl, r)
  value_kept (range a b) r = (refl, r)
