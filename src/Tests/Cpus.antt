-- ===== src/Tests/Cpus.antt =====
-- The parser of CPU lists on concrete input.
use ch_vmm.Prelude.{
  ◌≡◌, ◌^◌, ◌-◌, refl, All, [], ◌∷◌, some, none≢some, some_inj, ap, sym, ◌∙◌, arith,
}
use ch_vmm.Controller.Names.{Name, codes, atoi, scan_digits}
use ch_vmm.CpuSet.{
  parse, parsed, invalid, split_ranges, cut, atoi_signed, negative, fill, add, has, add_ranges,
  add_range, add_one, add_between,
}
use ch_vmm.Prelude.Int64.{lt64, add64}
use ch_vmm.CpuSet.Ranges.{IsBounded, Adds, intervals, parse-Adds}

-- "0-3,9" behind its first byte.
abbrev listed : Name
listed = b'-' ∷ b'3' ∷ b',' ∷ b'9' ∷ []

first-IsBounded : IsBounded (b'0' ∷ b'-' ∷ b'3' ∷ [])
unfolding IsBounded cut atoi_signed atoi scan_digits
first-IsBounded before after e h =
    let same : b'3' ∷ [] ≡ after = ap (λ p. p.1) (some_inj e) in
    let read : atoi_signed after ≡ some 3 = rw (sym same) refl in
    let max : 3 ≡ 2 ^ 63 - 1 = some_inj (sym read ∙ h) in omega arith

second-IsBounded : IsBounded (b'9' ∷ [])
unfolding IsBounded cut
second-IsBounded before after e = absurd (none≢some e)

listed-AllBounded : All IsBounded (split_ranges (b'0' ∷ listed))
unfolding split_ranges
listed-AllBounded = (first-IsBounded, (second-IsBounded, tt))

parse-Adds_example :
    Adds (intervals (split_ranges (b'0' ∷ listed))) [] (parse (2 ^ 63) (b'0' ∷ listed))
parse-Adds_example = parse-Adds (2 ^ 63) b'0' listed (omega arith) listed-AllBounded

ranges : parse 9 (codes "3-6,1-5") ≡ parsed (2 ∷ 1 ∷ 6 ∷ 5 ∷ 4 ∷ 3 ∷ [])
unfolding parse codes split_ranges cut atoi_signed atoi negative scan_digits fill add has add_ranges
    add_range add_one add_between lt64 add64
ranges = refl

reversed : parse 9 (codes "3-0") ≡ invalid
unfolding parse codes split_ranges cut atoi_signed atoi negative scan_digits fill add has add_ranges
    add_range add_one add_between lt64 add64
reversed = refl
