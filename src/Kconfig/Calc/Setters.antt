-- ===== src/Kconfig/Calc/Setters.antt =====
-- sym_calc_value of scripts/kconfig/symbol.c keeps what the setters of symbol.c have written.
use lightbuild.Kconfig.Assign.Choice.{KeepsValues}
use lightbuild.Kconfig.Assign.Strings.Stored.{KeepsStrings}
use lightbuild.Kconfig.Calc.Total.{sym_calc_value, sym_calc_value-Keeps}

pub sym_calc_value-KeepsStrings : KeepsStrings sym_calc_value
sym_calc_value-KeepsStrings y s x (c, p) = (sym_calc_value-Keeps y s c).same_strings x

pub sym_calc_value-KeepsValues : KeepsValues sym_calc_value
sym_calc_value-KeepsValues x s (c, p) y =
    let k = sym_calc_value-Keeps x s c in
    let (tri, choice, owner) = k.same_users p y in (k.same_strings y, tri, choice, owner)
