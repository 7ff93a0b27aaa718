-- ===== src/Controller/Names.antt =====
-- Object names as bytes, and Go's `strings.Split`, `strconv.Atoi` and `%d` as the controllers use
-- them (internal/controller/vmset_controller.go).
pub mod RoundTrip
use Prim.Native.Char.{code}
use ch_vmm.Prelude.{
  String, ℕ, zero, suc, ◌+◌, ◌-◌, ◌*◌, ◌/◌, ◌%◌, ◌^◌, Bool, true, false, ◌&&◌, List, [], ◌∷◌, ◌++◌,
  Option, none, some, if◌then◌else◌, ltb, leb, ◌==◌,
}

abbrev pub Name : Type 0
Name = List ℕ

abbrev pub dash : ℕ
dash = b'-'

-- The bytes of an ASCII text.
unfoldable pub codes : String → Name
codes String.[] = []
codes (String.◌∷◌ c s) = code c ∷ codes s

pub same_name : Name → Name → Bool
same_name [] [] = true
same_name [] (d ∷ t) = false
same_name (c ∷ s) [] = false
same_name (c ∷ s) (d ∷ t) = c == d && same_name s t

-- The decimal digits of a number below 10 ^ fuel, before the bytes of `out`.
digits : ℕ → ℕ → Name → Name
digits zero n out = out
digits (suc fuel) n out =
    let rest = digits fuel (n / 10) ((b'0' + n % 10) ∷ out) in
    if ltb n 10 then (b'0' + n) ∷ out else rest

-- `%d` of an `int32` given by its bit pattern.
pub format32 : ℕ → Name
unfolding digits
format32 n = if ltb n (2 ^ 31) then digits 10 n [] else dash ∷ digits 10 (2 ^ 32 - n) []

scan : Name → ℕ → Option ℕ
scan [] n = some n
scan (c ∷ s) n = if leb b'0' c && leb c b'9' then scan s (n * 10 + (c - b'0')) else none

-- One digit at least.
unfoldable pub scan_digits : Name → Option ℕ
unfolding scan
scan_digits [] = none
scan_digits (c ∷ s) = scan (c ∷ s) 0

-- A value that an `int` can hold, its sign being positive.
in_range : Option ℕ → Option ℕ
in_range none = none
in_range (some n) = if ltb n (2 ^ 63) then some n else none

-- `strconv.Atoi` of a text with no dash.
unfoldable pub atoi : Name → Option ℕ
unfolding scan_digits in_range
atoi [] = none
atoi (c ∷ s) = if c == b'+' then in_range (scan_digits s) else in_range (scan_digits (c ∷ s))

in_first : ℕ → List Name → List Name
in_first c [] = (c ∷ []) ∷ []
in_first c (p ∷ ps) = (c ∷ p) ∷ ps

-- `strings.Split(s, "-")`
pub split : Name → List Name
unfolding in_first
split [] = [] ∷ []
split (c ∷ s) = let rest = split s in if c == dash then [] ∷ rest else in_first c rest

-- `parts[len(parts)-1]`
last : List Name → Name
last [] = []
last (p ∷ []) = p
last (p ∷ p' ∷ ps) = last (p' ∷ ps)

-- `getOrdinal`: the number behind the last dash, cut to an `int32`, or 0.
pub get_ordinal : Name → ℕ
unfolding last split atoi
get_ordinal name = elim (atoi (last (split name))) [ none ↦ 0 | some n ↦ n % 2 ^ 32 ]

-- `fmt.Sprintf("%s-%d", base, ordinal)`
pub ordinal_name : Name → ℕ → Name
unfolding format32
ordinal_name base ordinal = base ++ dash ∷ format32 ordinal
