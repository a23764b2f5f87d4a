-- ===== src/Kconfig/ConfCheck/Tests.antt =====
-- conf_read on a store of three symbols.
use lightbuild.Prelude.{
  Option, Bytes, ℕ, ◌≡◌, refl, none, some, [], codes, arith, true, streq, strcmp, if◌then◌else◌,
}
use lightbuild.Kconfig.ConfOpen.{open_conf, Outside, zconf_fopen, conf_get_configname}
use lightbuild.Kconfig.Symbol.{Sym}
use lightbuild.Kconfig.Store.{Store, among}
use lightbuild.Kconfig.Samples.{two_symbols, two_symbols-IsIdle, two_names, two_symbols-left}
use lightbuild.Kconfig.Assign.Ready.{IsIdle}
use lightbuild.Kconfig.Calc.Value.{calc_fuel}
use lightbuild.Kconfig.Calc.Keeps.{SameCurr}
use lightbuild.Kconfig.ConfCheck.{check_symbols, conf_read}
use lightbuild.Kconfig.ConfCheck.Total.{code_of, conf_read-ends}
use lightbuild.Kconfig.ConfCheck.Checked.{check_symbols-valid}

-- The configuration is missing.
abbrev one_file : Outside
one_file = record {
  fopen = λ name.
      if streq name (codes "src/defconfig")
      then some (codes "CONFIG_FOO=y\nCONFIG_BAR=0x10\n")
      else none;
  kconfig_config = none;
  srctree = some (codes "src");
  sym_defconfig_list = some 3;
  freed = λ address. [];
}

opened : zconf_fopen one_file (codes "defconfig") ≡ some (codes "CONFIG_FOO=y\nCONFIG_BAR=0x10\n")
unfolding zconf_fopen strcmp
opened = refl

missing : zconf_fopen one_file (conf_get_configname one_file) ≡ none
unfolding zconf_fopen strcmp
missing = refl

conf_read-ends_example :
    (file : Option Bytes) × (opened : Store) × (open_conf one_file
        (calc_fuel 10)
        none
        (record two_symbols { sym_change_count = 0 })
      ≡ some (file, opened))
    × (t : Store) × (conf_read 10 one_file two_names none two_symbols ≡ some (code_of file, t))
    × (t.symbols ≡ two_symbols.symbols)
    × IsIdle t
conf_read-ends_example =
    conf_read-ends 10 one_file two_names none two_symbols two_symbols-IsIdle (omega arith)

check_symbols-valid_example :
    (unsaved : ℕ) × (t : Store) × (check_symbols (calc_fuel 4) two_symbols.symbols 0 two_symbols
      ≡ some (unsaved, t))
    × ((x : Sym) → among x two_symbols.symbols ≡ true → (t.get x).is_valid ≡ true)
    × ((x : Sym) → (two_symbols.get x).is_valid ≡ true → SameCurr (two_symbols.get x) (t.get x))
check_symbols-valid_example =
    check_symbols-valid 4 two_symbols two_symbols-IsIdle.0 two_symbols-IsIdle.1 two_symbols-left
