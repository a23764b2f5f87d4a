-- ===== src/Kconfig/ConfOpen.antt =====
-- How conf_read_simple of scripts/kconfig/confdata.c finds the file that it reads, with conf_get_configname
-- there and zconf_fopen of scripts/kconfig/lexer.l. Messages are left out.
use lightbuild.Prelude.{
  ℕ, suc, ◌++◌, Option, none, some, List, [], ◌∷◌, Bytes, codes, first, take, ◌==◌, if◌then◌else◌,
}
use lightbuild.Kconfig.Symbol.{Sym}
use lightbuild.Kconfig.Store.{DefaultProp}
use lightbuild.Kconfig.Default.{prop_get_symbol}
use lightbuild.Kconfig.Monad.{M, pure, ◌>>=◌, ◌>>◌, write}
use lightbuild.Kconfig.Calc.{user, is_no, calc_cond, get_string}

-- What is outside the table of symbols: the files by name, the variables KCONFIG_CONFIG and `srctree` of the
-- environment, the global `sym_defconfig_list`, and what a freed string reads as, by its address.
pub record Outside : Type 0 where
  pub fopen : Bytes → Option Bytes
  pub kconfig_config : Option Bytes
  pub srctree : Option Bytes
  pub sym_defconfig_list : Option Sym
  pub freed : ℕ → Bytes

-- PATH_MAX of Linux: snprintf cuts off what is longer.
abbrev path_max : ℕ
path_max = 4096

abbrev pub conf_get_configname : Outside → Bytes
conf_get_configname outside = elim outside.kconfig_config [
  | none ↦ codes ".config"
  | some name ↦ name
]

abbrev pub fopen_srctree : Outside → Bytes → Option Bytes
fopen_srctree outside name = elim outside.srctree [
  | none ↦ none
  | some env ↦ outside.fopen (take path_max (env ++ codes "/" ++ name))
]

unfoldable pub zconf_fopen : Outside → Bytes → Option Bytes
zconf_fopen outside name = elim (outside.fopen name) [
  | some text ↦ some text
  | none ↦ if first name == b'/' then none else fopen_srctree outside name
]

module _ (outside : Outside) (calc : Sym → M (Unit {0})) where
  -- The file that opens, or else what follows.
  abbrev pub or_else : Option Bytes → M (Option Bytes) → M (Option Bytes)
  or_else none more = more
  or_else (some text) more = pure (some text)

  -- The file that the symbol of a default names. The expression of a default is never NULL.
  abbrev pub open_default : Option Sym → M (Option Bytes) → M (Option Bytes)
  open_default none more = more
  open_default (some x) more =
      calc x >> get_string calc x >>= λ name. or_else (zconf_fopen outside name) more

  -- The loop over the defaults.
  unfoldable pub open_defaults : List DefaultProp → M (Option Bytes)
  open_defaults [] = pure none
  open_defaults (prop ∷ next) = calc_cond calc prop.condition >>= λ v.
      let more = open_defaults next in
      if is_no v then more else open_default (prop_get_symbol prop) more

  abbrev pub open_list : Option Sym → M (Option Bytes)
  open_list none = pure none
  open_list (some x) = user x >>= λ u. open_defaults u.defaults

  unfoldable pub open_conf : Option Bytes → M (Option Bytes)
  open_conf (some name) = pure (zconf_fopen outside name)
  open_conf none = or_else (zconf_fopen outside (conf_get_configname outside)) (
      write (λ s. record s { sym_change_count = suc s.sym_change_count })
      >> open_list outside.sym_defconfig_list)
