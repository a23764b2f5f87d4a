-- ===== src/Fixdep/Tests.antt =====
-- Concrete runs of scripts/basic/fixdep.c.
use lightbuild.Prelude.{
  true, ◌≡◌, refl, none, some, [], ◌∷◌, ◌++◌, Bytes, codes, strcmp, streq, if◌then◌else◌, isalnum,
}
use lightbuild.Fixdep.Table.{Fixdep, is_defined_config, print_dep, dep_path}
use lightbuild.Fixdep.Table.Set.{Holds, Writes, new_lines, seen_after}
use lightbuild.Fixdep.Table.Path.{is_clean, dep_path-is_clean}
use lightbuild.Fixdep.Config.{
  parse_config_file, starts_with, is_word, option_name, str_ends_with, word_of,
}
use lightbuild.Fixdep.Config.Names.{config_names, parse_config_file_sound}
use lightbuild.Fixdep.Dep.{is_white, Files, parse_dep_file}
use lightbuild.Fixdep.Dep.Words.{words}
use lightbuild.Fixdep.Dep.Pass.{pass, parse_dep_file_sound}

abbrev empty : Fixdep
empty = record { hashtab = λ b. []; out = [] }

empty-Holds : Holds empty.hashtab []
unfolding is_defined_config
empty-Holds n = refl

-- Two uses of one option, the second one of its module.
abbrev text : Bytes
text = codes "#ifdef CONFIG_A_B\n#if CONFIG_C_MODULE || MY_CONFIG_D || CONFIG_A_B\n"

text_names : config_names none text ≡ codes "A_B" ∷ codes "C" ∷ codes "A_B" ∷ []
unfolding config_names starts_with is_word isalnum option_name str_ends_with word_of strcmp
text_names = refl

path_test : print_dep (codes "A__B_c") (codes "inc") ≡ codes "    $(wildcard inc/a/b/c.h) \\\n"
unfolding print_dep dep_path
path_test = refl

parse_config_file_sound_example :
    (s' : Fixdep) × (parse_config_file text empty ≡ some s')
    × Writes s'
        ([] ++ new_lines [] (config_names none text))
        (seen_after [] (config_names none text))
parse_config_file_sound_example = parse_config_file_sound text empty [] empty-Holds

abbrev sources : Files
sources name = if streq name (codes "a.c") then some text else none

abbrev dep_text : Bytes
dep_text = codes "a.o: a.c \\\n include/generated/autoconf.h b.h\n"

dep_words :
    words [] dep_text
    ≡ codes "a.o:" ∷ codes "a.c" ∷ codes "include/generated/autoconf.h" ∷ codes "b.h" ∷ []
unfolding words is_white
dep_words = refl

parse_dep_file_sound_example :
    parse_dep_file sources dep_text (codes "a.o") empty
    ≡ some (pass sources (codes "a.o") [] (words [] dep_text) empty)
parse_dep_file_sound_example = parse_dep_file_sound sources dep_text (codes "a.o") empty

dep_path-is_clean_example : is_clean b'/' (dep_path b'/' (codes "_A__B")) ≡ true
dep_path-is_clean_example = dep_path-is_clean b'/' (codes "_A__B")
