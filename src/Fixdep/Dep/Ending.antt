-- ===== src/Fixdep/Dep/Ending.antt =====
-- How the names of a dependency file end, for parse_dep_file of scripts/basic/fixdep.c.
use lightbuild.Prelude.{
  suc, ◌-◌, ◌≤◌, ◌<◌, ◌≡◌, ◌≢◌, refl, sym, ap, ap₂, ◌∙◌, Bool, true, false, ◌||◌, [], ◌∷◌, Bytes,
  codes, length, drop, ltb, streq, streq_iff, strcmp, Bool-cases, inl, inr, arith,
}
use lightbuild.Fixdep.Config.{str_ends_with}
use lightbuild.Fixdep.Dep.{is_target, is_ignored_file}

-- Some tail of the text is this one.
unfoldable pub ends_in : Bytes → Bytes → Bool
ends_in [] tail = streq [] tail
ends_in (c ∷ cs) tail = streq (c ∷ cs) tail || ends_in cs tail

pub is_target-ends_in : (m : Bytes) → is_target m ≡ ends_in m (codes ":")
unfolding is_target ends_in strcmp
is_target-ends_in [] = refl
is_target-ends_in (c ∷ []) = ground arith
is_target-ends_in (c ∷ d ∷ ds) = ground (arith, is_target-ends_in (d ∷ ds))

sizes_differ : (s t : Bytes) → length s ≢ length t → streq s t ≡ false
sizes_differ s t h = elim (Bool-cases (streq s t)) [
  | inl same ↦ absurd (h (ap length ((streq_iff s t).0 same)))
  | inr other ↦ other
]

ends_in_shorter : (s t : Bytes) → length s < length t → ends_in s t ≡ false
unfolding ends_in
ends_in_shorter [] t h = sizes_differ [] t (λ e. omega (arith, h, e))
ends_in_shorter (c ∷ cs) t h =
    rw (sizes_differ (c ∷ cs) t (λ e. omega (arith, h, e)))
      (ends_in_shorter cs t (omega (arith, h)))

or_false : (b : Bool) → b ≡ (b || false)
or_false true = refl
or_false false = refl

fits : (s t : Bytes) → length t ≤ length s → ltb (length s) (length t) ≡ false
fits s t h = ground (arith, h)

str_ends_with_fits :
    (s t : Bytes) → length t ≤ length s → str_ends_with s t ≡ streq (drop (length s - length t) s) t
unfolding str_ends_with
str_ends_with_fits s t h = rw (fits s t h) refl

pub str_ends_with-ends_in : (s t : Bytes) → str_ends_with s t ≡ ends_in s t
unfolding ends_in
str_ends_with-ends_in [] [] = str_ends_with_fits [] [] (omega arith)
str_ends_with-ends_in [] (d ∷ ds) = unfold str_ends_with in unfold strcmp in ground arith
str_ends_with-ends_in (c ∷ cs) t = elim (Bool-cases (ltb (length cs) (length t))) [
  | inr shorter ↦
      let le : length t ≤ length cs = ground (arith, shorter) in
      let one_more : length (c ∷ cs) - length t ≡ suc (length cs - length t) = omega (arith, le) in
      rw (sizes_differ (c ∷ cs) t (λ e. omega (arith, le, e))) (
        str_ends_with_fits (c ∷ cs) t (omega (arith, le))
        ∙ ap (λ n. streq (drop n (c ∷ cs)) t) one_more
        ∙ sym (str_ends_with_fits cs t le)
        ∙ str_ends_with-ends_in cs t)
  | inl longer ↦
      let lt : length cs < length t = ground (arith, longer) in
      rw (ends_in_shorter cs t lt) (elim (Bool-cases (ltb (length (c ∷ cs)) (length t))) [
        | inl over ↦
            let far : length (c ∷ cs) < length t = ground (arith, over) in
            rw (sizes_differ (c ∷ cs) t (λ e. omega (arith, far, e)))
              (unfold str_ends_with in rw over refl)
        | inr whole ↦
            let le : length t ≤ length (c ∷ cs) = ground (arith, whole) in
            let none_left : length (c ∷ cs) - length t ≡ 0 = omega (arith, lt, le) in
            str_ends_with_fits (c ∷ cs) t le
            ∙ ap (λ n. streq (drop n (c ∷ cs)) t) none_left
            ∙ or_false (streq (c ∷ cs) t)
      ])
]

pub is_ignored_file-ends_in :
    (m : Bytes)
    → is_ignored_file m ≡ (
        ends_in m (codes "include/generated/autoconf.h")
        || ends_in m (codes "include/generated/autoksyms.h"))
unfolding is_ignored_file
is_ignored_file-ends_in m =
    ap₂ (λ a b. a || b) (str_ends_with-ends_in m _) (str_ends_with-ends_in m _)
