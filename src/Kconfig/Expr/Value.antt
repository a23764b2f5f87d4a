-- ===== src/Kconfig/Expr/Value.antt =====
-- expr_parse_string and expr_calc_value of scripts/kconfig/expr.c.
pub mod Constants
use lightbuild.Prelude.{
  ℕ, ◌-◌, ◌≡◌, refl, Bool, true, false, ◌&&◌, ◌||◌, Option, none, some, [], ◌∷◌, Bytes, arith, ltb,
  ◌==◌, if◌then◌else◌, compare, Ordering, strcmp, streq, isxdigit,
}
use lightbuild.Kconfig.Tristate.{
  Tristate, tri_no, tri_mod, tri_yes, expr_and, expr_or, expr_not, of_bool,
}
use lightbuild.Kconfig.Symbol.{
  SymbolType, unknown, boolean, tristate, int, hex, string, Sym, Symbol, Table, type_eq, letter,
  sym_get_string_value,
}
use lightbuild.Kconfig.Strto.{Number, word, strtoll, strtoull, signed_key}
use lightbuild.Kconfig.Expr.{
  Relation, equal, unequal, lth, leq, gth, geq, Expr, symbol, not, and, or, comp, list_end, list,
  range,
}

pub data ValueKind : Type 0 where
  k_string k_signed k_unsigned : ValueKind

-- `union string_value` is its 64-bit pattern.
pub record Parsed : Type 0 where
  pub kind : ValueKind
  pub value : ℕ

-- The last test: no error, the whole string read, and its last byte a hexadecimal digit.
abbrev pub kind_of : ValueKind → Number → Parsed
kind_of kind n = elim n.last [
  | none ↦ record { kind = k_string; value = n.value }
  | some c ↦ record {
    kind =
        if n.range_error
        then k_string
        else if streq n.tail [] && isxdigit c
        then kind
        else k_string;
    value = n.value;
  }
]

abbrev pub tristate_parsed : Bytes → Parsed
tristate_parsed str = record {
  kind = k_signed;
  value =
      if streq str (letter tri_no)
      then 0
      else if streq str (letter tri_mod)
      then 1
      else if streq str (letter tri_yes)
      then 2
      else word - 1;
}

unfoldable pub expr_parse_string : Bytes → SymbolType → Parsed
unfolding strcmp isxdigit strtoll strtoull
expr_parse_string str boolean = tristate_parsed str
expr_parse_string str tristate = tristate_parsed str
expr_parse_string str int = kind_of k_signed (strtoll 10 str)
expr_parse_string str hex = kind_of k_unsigned (strtoull 16 str)
expr_parse_string str _ = kind_of k_signed (strtoll 0 str)

-- The order of two parsed operands: as strings where either is no number.
abbrev pub order_of : ValueKind → ValueKind → ℕ → ℕ → Ordering → Ordering
order_of k_string _ u v strings = strings
order_of _ k_string u v strings = strings
order_of k_unsigned _ u v strings = compare u v
order_of _ k_unsigned u v strings = compare u v
order_of k_signed k_signed u v strings = compare (signed_key u) (signed_key v)

abbrev pub is_string : SymbolType → Bool
is_string ty = type_eq ty string

-- `res`, as an order: the operands' types and strings decide it.
unfoldable pub value_order : SymbolType → Bytes → SymbolType → Bytes → Ordering
unfolding strcmp
value_order ty1 str1 ty2 str2 =
    let strings = strcmp str1 str2 in
    let lval = expr_parse_string str1 ty1 in
    let rval = expr_parse_string str2 ty2 in
    if is_string ty1 && is_string ty2
    then strings
    else order_of lval.kind rval.kind lval.value rval.value strings

unfoldable pub symbol_order : Table → Sym → Sym → Ordering
symbol_order t a b =
    value_order (t.get a).type (sym_get_string_value t a) (t.get b).type (sym_get_string_value t b)

abbrev pub holds : Relation → Ordering → Bool
holds equal Ordering.eq = true
holds equal _ = false
holds unequal Ordering.eq = false
holds unequal _ = true
holds lth Ordering.lt = true
holds lth _ = false
holds leq Ordering.gt = false
holds leq _ = true
holds gth Ordering.gt = true
holds gth _ = false
holds geq Ordering.lt = false
holds geq _ = true

-- The value of an expression over calculated symbols.
unfoldable pub expr_calc_value : Table → Expr → Tristate
expr_calc_value t (symbol s) = (t.get s).tri
expr_calc_value t (and a b) = expr_and (expr_calc_value t a) (expr_calc_value t b)
expr_calc_value t (or a b) = expr_or (expr_calc_value t a) (expr_calc_value t b)
expr_calc_value t (not e) = expr_not (expr_calc_value t e)
expr_calc_value t (comp r a b) = of_bool (holds r (symbol_order t a b))
expr_calc_value t (list_end s) = tri_no
expr_calc_value t (list e s) = tri_no
expr_calc_value t (range a b) = tri_no

-- NULL is yes.
abbrev pub calc_value : Table → Option Expr → Tristate
calc_value t none = tri_yes
calc_value t (some e) = expr_calc_value t e
