-- ===== src/Controller/Names/RoundTrip.antt =====
-- The ordinal of a name that was built from one.
use native.Mathlib.Nat.{pow-suc}
use ch_vmm.Prelude.{
  ℕ, zero, suc, ◌+◌, ◌-◌, ◌*◌, ◌/◌, ◌%◌, ◌^◌, ◌≤◌, ◌<◌, ◌≡◌, refl, ◌≢◌, ap, ◌↔◌, true, List, [],
  ◌∷◌, ◌++◌, some, ltb, ◌==◌, arith, All, Bool-cases, inl, inr, ltb→lt, ltb→le, lt→ltb, le→ltb,
  length, cons≢nil, Option, none, none≢some, some_inj, sym, ◌∙◌,
}
use ch_vmm.Controller.Names.{
  Name, dash, same_name, digits, format32, scan, scan_digits, in_range, atoi, in_first, split, last,
  get_ordinal, ordinal_name,
}

pub same_name_iff : (s t : Name) → (same_name s t ≡ true) ↔ (s ≡ t)
unfolding same_name
same_name_iff [] [] = ((λ h. refl), (λ h. refl))
same_name_iff [] (d ∷ t) = ((λ h. cc), (λ h. cc))
same_name_iff (c ∷ s) [] = ((λ h. cc), (λ h. cc))
same_name_iff (c ∷ s) (d ∷ t) = ground (arith, same_name_iff s t)

abbrev IsDigit : ℕ → Type 0
IsDigit c = (b'0' ≤ c) × (c ≤ b'9')

digits-IsDigit : (fuel n : ℕ) (out : Name) → All IsDigit out → All IsDigit (digits fuel n out)
unfolding digits
digits-IsDigit zero n out h = h
digits-IsDigit (suc fuel) n out h =
    ground (arith, digits-IsDigit fuel (n / 10) ((b'0' + n % 10) ∷ out))

scan_digit : (c : ℕ) (s : Name) (n : ℕ) → IsDigit c → scan (c ∷ s) n ≡ scan s (n * 10 + (c - b'0'))
unfolding scan
scan_digit c s n h = ground arith

digits_small : (fuel n : ℕ) (out : Name) → n < 10 → digits (suc fuel) n out ≡ (b'0' + n) ∷ out
unfolding digits
digits_small fuel n out h = rw (lt→ltb n 10 h)

digits_large :
    (fuel n : ℕ) (out : Name)
    → 10 ≤ n
    → digits (suc fuel) n out ≡ digits fuel (n / 10) ((b'0' + n % 10) ∷ out)
unfolding digits
digits_large fuel n out h = rw (le→ltb n 10 h)

scan_small : (fuel n : ℕ) (out : Name) → n < 10 → scan (digits (suc fuel) n out) 0 ≡ scan out n
scan_small fuel n out lt =
    rw (digits_small fuel n out lt, scan_digit (b'0' + n) out 0 (omega arith))
      (ap (scan out) {x = 0 * 10 + (b'0' + n - b'0')} {y = n} (omega arith))

scan-digits :
    (fuel n : ℕ) (out : Name) → n < 10 ^ suc fuel → scan (digits (suc fuel) n out) 0 ≡ scan out n
scan-digits zero n out h = scan_small 0 n out h
scan-digits (suc fuel) n out h = elim (Bool-cases (ltb n 10)) [
  | inl small ↦ scan_small (suc fuel) n out (ltb→lt n 10 small)
  | inr large ↦
      rw
        (
          digits_large (suc fuel) n out (ltb→le n 10 large),
          scan-digits fuel (n / 10) ((b'0' + n % 10) ∷ out) (omega (arith, pow-suc 10 (suc fuel))),
          scan_digit (b'0' + n % 10) out (n / 10) (omega arith),
        )
        (ap (scan out) {x = n / 10 * 10 + (b'0' + n % 10 - b'0')} {y = n} (omega arith))
]

length-digits-le : (fuel n : ℕ) (out : Name) → length out ≤ length (digits fuel n out)
unfolding digits
length-digits-le zero n out = omega arith
length-digits-le (suc fuel) n out =
    ground (arith, length-digits-le fuel (n / 10) ((b'0' + n % 10) ∷ out))

length-digits : (fuel n : ℕ) (out : Name) → length out < length (digits (suc fuel) n out)
unfolding digits
length-digits fuel n out = ground (arith, length-digits-le fuel (n / 10) ((b'0' + n % 10) ∷ out))

atoi-IsDigit : (d : Name) → All IsDigit d → 0 < length d → atoi d ≡ in_range (scan d 0)
unfolding atoi scan_digits
atoi-IsDigit [] h p = absurd (omega arith)
atoi-IsDigit (c ∷ s) h p = ground arith

-- A text with no dash is one part, and ends the parts of whatever stands before it.
split-IsDigit : (d : Name) → All IsDigit d → split d ≡ d ∷ []
unfolding split in_first
split-IsDigit [] h = refl
split-IsDigit (c ∷ d) h = ground (arith, split-IsDigit d h.1)

in_first-append :
    (c : ℕ) (ps qs : List Name) → ps ≢ [] → in_first c (ps ++ qs) ≡ in_first c ps ++ qs
unfolding in_first
in_first-append c [] qs h = absurd (h refl)
in_first-append c (p ∷ ps) qs h = refl

in_first-ne-nil : (c : ℕ) (ps : List Name) → in_first c ps ≢ []
unfolding in_first
in_first-ne-nil c [] h = cc
in_first-ne-nil c (p ∷ ps) h = cc

split-ne-nil : (s : Name) → split s ≢ []
unfolding split
split-ne-nil [] h = cc
split-ne-nil (c ∷ s) h = elim (Bool-cases (c == dash)) [
  | inl e ↦ cons≢nil [] (split s) (rw e at h)
  | inr e ↦ in_first-ne-nil c (split s) (rw e at h)
]

split-append : (base d : Name) → split (base ++ dash ∷ d) ≡ split base ++ split d
unfolding split
split-append [] d = refl
split-append (c ∷ base) d = elim (Bool-cases (c == dash)) [
  | inl e ↦ rw (e, split-append base d)
  | inr e ↦
      rw (e, split-append base d) (in_first-append c (split base) (split d) (split-ne-nil base))
]

last-append : (ps : List Name) (q : Name) → last (ps ++ q ∷ []) ≡ q
unfolding last
last-append [] q = refl
last-append (p ∷ []) q = refl
last-append (p ∷ p' ∷ ps) q = last-append (p' ∷ ps) q

last-split : (base d : Name) → All IsDigit d → last (split (base ++ dash ∷ d)) ≡ d
last-split base d h = rw (split-append base d, split-IsDigit d h) (last-append (split base) d)

format32_small : (n : ℕ) → n < 2 ^ 31 → format32 n ≡ digits 10 n []
unfolding format32
format32_small n h = rw (lt→ltb n (2 ^ 31) h)

atoi-digits : (n : ℕ) → n < 2 ^ 31 → atoi (digits 10 n []) ≡ some n
unfolding in_range scan
atoi-digits n h = rw (
  atoi-IsDigit (digits 10 n []) (digits-IsDigit 10 n [] tt) (length-digits 9 n []),
  scan-digits 9 n [] (omega arith),
  lt→ltb n (2 ^ 63) (omega arith),
)

get_ordinal-atoi :
    (name : Name) (n : ℕ) → atoi (last (split name)) ≡ some n → n < 2 ^ 32 → get_ordinal name ≡ n
unfolding get_ordinal
get_ordinal-atoi name n e h = rw (e, get_ordinal) (omega arith)

-- The ordinal of a name that is built from a base and an ordinal is that ordinal, whatever dashes
-- and digits the base has.
pub get_ordinal-ordinal_name :
    (base : Name) (ordinal : ℕ)
    → ordinal < 2 ^ 31
    → get_ordinal (ordinal_name base ordinal) ≡ ordinal
unfolding ordinal_name
get_ordinal-ordinal_name base ordinal h =
    get_ordinal-atoi (ordinal_name base ordinal) ordinal
      (rw
        (
          format32_small ordinal h,
          last-split base (digits 10 ordinal []) (digits-IsDigit 10 ordinal [] tt),
        )
        (atoi-digits ordinal h))
      (omega arith)

in_range-lt : (o : Option ℕ) (n : ℕ) → in_range o ≡ some n → n < 2 ^ 63
unfolding in_range
in_range-lt none n e = absurd (none≢some e)
in_range-lt (some m) n e = elim (Bool-cases (ltb m (2 ^ 63))) [
  | inl h ↦
      let read : in_range (some m) ≡ some m = rw h in
      let same : m ≡ n = some_inj (sym read ∙ e) in rw (sym same) (ltb→lt m (2 ^ 63) h)
  | inr h ↦ let read : in_range (some m) ≡ none = rw h in absurd (none≢some (sym read ∙ e))
]

pub atoi-lt : (s : Name) (n : ℕ) → atoi s ≡ some n → n < 2 ^ 63
unfolding atoi
atoi-lt [] n e = absurd (none≢some e)
atoi-lt (c ∷ s) n e = elim (Bool-cases (c == b'+')) [
  | inl h ↦ in_range-lt (scan_digits s) n (sym (rw h refl) ∙ e)
  | inr h ↦ in_range-lt (scan_digits (c ∷ s)) n (sym (rw h refl) ∙ e)
]
