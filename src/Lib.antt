-- ===== src/Lib.antt =====
-- A verification library for lightbuild, a build framework grown from kbuild.
--
-- The configuration tool under scripts/kconfig reads Kconfig files into symbols, properties and
-- dependency expressions; menus and front ends simplify those expressions and set symbol values.
--
-- - Kconfig/Tristate: `enum tristate` and its three macros (scripts/kconfig/expr.h).
-- - Kconfig/Symbol: the part of `struct symbol` that expressions read, the constant symbols and
--   sym_get_string_value (scripts/kconfig/symbol.c). A pointer to a symbol is a number.
-- - Kconfig/Strto: strtoll and strtoull, with 64-bit results as bit patterns.
-- - Kconfig/Expr and its children: scripts/kconfig/expr.c. Trees are values: copying is the
--   identity and freeing does nothing; a NULL pointer is `none`. Yn is expr_eliminate_yn, Eq is
--   expr_eliminate_eq and expr_eq, Dups is expr_join_or, expr_join_and and expr_eliminate_dups,
--   Transform is expr_transform and expr_trans_bool, Compare is expr_trans_compare, Value is
--   expr_parse_string and expr_calc_value.
--
-- - Kconfig/StringValid, Kconfig/Escape, Kconfig/Lookup: sym_string_valid, sym_escape_string_value
--   with the reading of quoted strings in confdata.c, sym_lookup and sym_find.
-- - Kconfig/ConfValue: conf_set_sym_val, kconfig_print_symbol and conf_write_symbol (confdata.c).
-- - Kconfig/ConfRead and its children: conf_read_simple with compat_getline (confdata.c), for the
--   user's configuration in a file that is open, given as its bytes; bytes behind the end of a line
--   are taken to match nothing. What a pointer to a freed string reads is a parameter, by its address.
--   Lines is about the text of lines, Only about what a line changes, Written about lines of the
--   written form, Entries and Roundtrip about files, Safe and Total about any text.
-- - Kconfig/ConfOpen: the start of conf_read_simple, which opens the file that it is given, or else
--   the user's configuration or a default of `sym_defconfig_list`, with conf_get_configname
--   (confdata.c) and zconf_fopen (scripts/kconfig/lexer.l). The files and the environment are parameters.
-- - Kconfig/ConfCheck and its children: conf_read (confdata.c), which reads, calculates all symbols,
--   compares them with what was saved, and drops strings that are out of range; Ends is about code
--   that makes symbols invalid, Checks about what follows the reading, Total about the whole, Checked
--   about the loop that compares.
-- - Kconfig/ConfHeader: header_print_symbol (confdata.c), which prints autoconf.h; Macros says what its
--   macros mean.
-- - Kconfig/Default: sym_get_default_prop and sym_get_string_default.
-- - Kconfig/Store, Kconfig/Monad: `struct symbol` with its properties, the table of symbols, and code
--   that reads and writes them.
-- - Kconfig/Assign and its children: the setters of user values in symbol.c; sym_calc_value, which
--   they call at the end, is their parameter, and Kconfig/Calc/Setters shows that the one of
--   Kconfig/Calc fits.
-- - Kconfig/Calc and its children: sym_calc_value with sym_calc_visibility, sym_calc_choice and
--   sym_validate_range (symbol.c), set_all_choice_values (confdata.c), and expr_calc_value as it calls
--   them (expr.c). The functions call one another, so each takes the calculation of a symbol as a
--   parameter, which calc_fuel gives. Addresses of strings stand in for the comparison of bytes that
--   finds a changed value. Keeps says what all that code keeps, Rules, RulesTo, Parts, ChoiceParts,
--   ValueParts and Sound show it part by part, Fuel and Total put the parts together; Stable and
--   Refine are about expressions, Settled is about symbols that have all been calculated, Print about
--   the numbers that printf writes and strtoll reads, and Clamp about sym_validate_range, which uses
--   both. The warning about unmet dependencies is left out.
-- - Fixdep: scripts/basic/fixdep.c, which turns the dependency file of a compilation into make rules
--   on options. Table is the hash table and print_dep, Config the scanner for CONFIG_ words, Dep the
--   dependency file and main; of its children Words takes the file apart into words, Ending is about
--   how words end, and Pass says what is written for each. The files are a parameter; a bucket is a
--   list, the table a function from bucket numbers. A write that fails is left out.
--
-- Outside Kconfig/Calc, Kconfig/ConfOpen and Kconfig/ConfCheck values are read after calculation: a table gives each
-- symbol the `curr` that sym_calc_value left (IsCalculated). Recursions that are not structural take
-- fuel and return an option; a theorem gives the fuel that is enough: the weight for expr_transform,
-- twice the sizes for expr_eliminate_eq and expr_eq, a quadratic budget for each round of
-- expr_eliminate_dups, three rounds for the toggle, one more than the length of the text for the loops
-- over strings, one more than what is left to calculate for sym_calc_value (at most three for each
-- symbol, which conf_read is given). expr_eliminate_dups1 works on two places of one tree, as the
-- source's pointers do; the trees are assumed to share no nodes. For expr_join_or, expr_join_and and
-- expr_eliminate_dups no symbol may compare equal to two distinct constant symbols (ConstantsDiffer):
-- with "1" and "0x1", or a quoted "0" beside `n`, their rules are wrong. Messages on standard output
-- are left out.
--
-- Not modelled: the menus and macro expansion of scripts/kconfig, the printing of expressions, the
-- check for recursive dependencies, and the writing of whole files and of include/config, which come
-- next; the user interfaces, which are terminal and window input and output; the generated lexers and
-- parsers; the device tree compiler, libfdt and newconfig, which are copies of other projects; the
-- make and coccinelle rules and the examples.
pub mod Prelude
pub mod Kconfig
pub mod Fixdep
