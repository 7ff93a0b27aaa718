-- ===== src/CpuSet.antt =====
-- pkg/cpuset/cpuset.go: the parser of CPU lists such as "0-3,8". A set is a list without duplicates,
-- and a number that can be negative an `int64` by its bit pattern.
pub mod Ranges
use ch_vmm.Prelude.{
  ℕ, zero, suc, ◌-◌, ◌%◌, ◌^◌, Bool, true, false, ◌||◌, List, [], ◌∷◌, Option, none, some,
  if◌then◌else◌, ◌==◌, leb,
}
use ch_vmm.Prelude.Int64.{add64, lt64}
use ch_vmm.Controller.Names.{Name, dash, atoi, scan_digits}

-- Whether a number is in a set, and `Add`.
unfoldable pub has : ℕ → List ℕ → Bool
has n [] = false
has n (m ∷ ms) = n == m || has n ms

unfoldable pub add : ℕ → List ℕ → List ℕ
unfolding has
add n set = if has n set then set else n ∷ set

-- `strings.Split(s, ",")`
in_first : ℕ → List Name → List Name
in_first c [] = (c ∷ []) ∷ []
in_first c (r ∷ rs) = (c ∷ r) ∷ rs

unfoldable pub split_ranges : Name → List Name
unfolding in_first
split_ranges [] = [] ∷ []
split_ranges (c ∷ s) = let rest = split_ranges s in if c == b',' then [] ∷ rest else in_first c rest

-- `strings.SplitN(r, "-", 2)`: the two parts, if there is a dash.
unfoldable pub cut : Name → Option (Name × Name)
cut [] = none
cut (c ∷ s) =
    let rest = cut s in
    if c == dash
    then some ([], s)
    else elim rest [ none ↦ none | some (before, after) ↦ some (c ∷ before, after) ]

-- `strconv.Atoi`, also of a text with a sign.
unfoldable pub negative : Option ℕ → Option ℕ
negative none = none
negative (some n) = if leb n (2 ^ 63) then some ((2 ^ 64 - n) % 2 ^ 64) else none

unfoldable pub atoi_signed : Name → Option ℕ
unfolding negative
atoi_signed [] = none
atoi_signed (c ∷ s) = if c == dash then negative (scan_digits s) else atoi (c ∷ s)

-- What parsing comes to: a set, an error, or no end within the fuel.
pub data Parsed : Type 0 where
  parsed : List ℕ → Parsed
  invalid unfinished : Parsed

-- The loop that adds the numbers of a range.
unfoldable pub fill : ℕ → ℕ → ℕ → List ℕ → Parsed
unfolding add
fill zero e end set = unfinished
fill (suc fuel) e end set =
    let rest = fill fuel (add64 e 1) end (add e set) in if lt64 end e then parsed set else rest

unfoldable pub add_one : Option ℕ → List ℕ → Parsed
unfolding add
add_one none set = invalid
add_one (some n) set = parsed (add n set)

unfoldable pub add_between : ℕ → Option ℕ → Option ℕ → List ℕ → Parsed
unfolding fill
add_between fuel none end set = invalid
add_between fuel (some e) none set = invalid
add_between fuel (some e) (some end) set = if lt64 end e then invalid else fill fuel e end set

unfoldable pub add_range : ℕ → Name → List ℕ → Parsed
unfolding cut atoi_signed add_one add_between
add_range fuel r set = elim (cut r) [
  | none ↦ add_one (atoi r) set
  | some (before, after) ↦ add_between fuel (atoi before) (atoi_signed after) set
]

unfoldable pub add_ranges : ℕ → List Name → List ℕ → Parsed
unfolding add_range
add_ranges fuel [] set = parsed set
add_ranges fuel (r ∷ rs) set = elim (add_range fuel r set) [
  | parsed next ↦ add_ranges fuel rs next
  | invalid ↦ invalid
  | unfinished ↦ unfinished
]

-- `Parse`
unfoldable pub parse : ℕ → Name → Parsed
unfolding split_ranges add_ranges
parse fuel [] = parsed []
parse fuel (c ∷ s) = add_ranges fuel (split_ranges (c ∷ s)) []
