-- ===== src/Daemon/Numbers.antt =====
-- pkg/daemon/vm_controller.go and pkg/daemon/cgroup/v2_manager.go: `getBlockFileMajorMinor` of both, the
-- numbers of a device from the output of `stat`.
pub mod Bases
use ch_vmm.Prelude.{
  ℕ, ◌+◌, ◌-◌, ◌*◌, ◌^◌, ◌≤◌, ◌<◌, ◌≡◌, refl, sym, ◌∙◌, ◌≢◌, ◌⊎◌, inl, inr, Bool, true, false, ◌&&◌,
  List, [], ◌∷◌, Option, none, some, none≢some, some_inj, if◌then◌else◌, ltb, leb, ltb→lt, ◌==◌,
  arith, Bool-cases, Option-cases,
}
use ch_vmm.Controller.Names.{Name, dash}

-- The value of a digit, and whether it is one in a base.
unfoldable pub digit_value : ℕ → ℕ
digit_value c =
    if leb b'0' c && leb c b'9'
    then c - b'0'
    else if leb b'a' c && leb c b'z'
    then c - b'a' + 10
    else if leb b'A' c && leb c b'Z'
    then c - b'A' + 10
    else 36

unfoldable pub scan_base : ℕ → ℕ → Name → Option ℕ
unfolding digit_value
scan_base base acc [] = some acc
scan_base base acc (c ∷ s) =
    if ltb (digit_value c) base then scan_base base (acc * base + digit_value c) s else none

-- One digit at least, and a value within a bound.
unfoldable pub in_bound : ℕ → Option ℕ → Option ℕ
in_bound limit none = none
in_bound limit (some n) = if ltb n limit then some n else none

unfoldable pub scan_some : ℕ → Name → Option ℕ
unfolding scan_base
scan_some base [] = none
scan_some base (c ∷ s) = scan_base base 0 (c ∷ s)

unfoldable pub minus : Option ℕ → Option ℕ
minus none = none
minus (some n) = some (if n == 0 then 0 else 2 ^ 64 - n)

-- `strconv.ParseInt(s, base, 32)`, a bit pattern of 64 bits.
unfoldable pub parse_int32 : ℕ → Name → Option ℕ
unfolding scan_some in_bound minus
parse_int32 base [] = none
parse_int32 base (c ∷ s) =
    if c == dash
    then minus (in_bound (2 ^ 31 + 1) (scan_some base s))
    else if c == b'+'
    then in_bound (2 ^ 31) (scan_some base s)
    else in_bound (2 ^ 31) (scan_some base (c ∷ s))

unfoldable pub in_first : ℕ → List Name → List Name
in_first c [] = (c ∷ []) ∷ []
in_first c (r ∷ rs) = (c ∷ r) ∷ rs

-- `strings.Split(output, ",")`
unfoldable pub split_fields : Name → List Name
unfolding in_first
split_fields [] = [] ∷ []
split_fields (c ∷ s) = let rest = split_fields s in if c == b',' then [] ∷ rest else in_first c rest

unfoldable pub both : Option ℕ → Option ℕ → Option (ℕ × ℕ)
both none b = none
both (some a) none = none
both (some a) (some b) = some (a, b)

-- The numbers of a line of four fields.
unfoldable pub fields : ℕ → List Name → Option (ℕ × ℕ)
unfolding parse_int32 both
fields base (major ∷ minor ∷ mode ∷ kind ∷ []) =
    both (parse_int32 base major) (parse_int32 base minor)
fields base f = none

-- `getBlockFileMajorMinor` behind the call of `stat`, in a base.
unfoldable pub device_numbers : ℕ → Name → Option (ℕ × ℕ)
unfolding split_fields fields
device_numbers base output = fields base (split_fields output)
