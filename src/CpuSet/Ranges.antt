-- ===== src/CpuSet/Ranges.antt =====
-- Parsing ends, with the numbers of the ranges, unless a range ends at the largest `int`.
use ch_vmm.Prelude.{
  ℕ, zero, suc, ◌+◌, ◌-◌, ◌^◌, ◌≤◌, ◌<◌, ◌≡◌, refl, sym, ◌∙◌, inl, inr, Bool, true, false, ◌||◌,
  ◌&&◌, Bool-cases, Option-cases, All, List, [], ◌∷◌, Option, none, some, some_inj, none≢some,
  arith, if◌then◌else◌, ◌==◌, ◌≢◌, ltb→le, ◌%◌, leb, ap, lt→ltb, le→ltb, ==_iff,
}
use ch_vmm.Prelude.Int64.{add64, lt64, add64_small, lt64_small}
use ch_vmm.Controller.Names.{Name, dash, atoi, scan_digits}
use ch_vmm.Controller.Names.RoundTrip.{atoi-lt}
use ch_vmm.CpuSet.{
  has, add, split_ranges, cut, negative, atoi_signed, Parsed, parsed, invalid, unfinished, fill,
  add_one, add_between, add_range, add_ranges, parse,
}

has-add : (n m : ℕ) (set : List ℕ) → has n (add m set) ≡ (n == m || has n set)
unfolding add has
has-add n m set = elim (Bool-cases (n == m)) [
  | inl e ↦
      let same : n ≡ m = (==_iff n m).0 e in
      elim (Bool-cases (has m set)) [ inl h ↦ rw (h, e) (rw same h) | inr h ↦ rw (h, e) ]
  | inr e ↦ elim (Bool-cases (has m set)) [ inl h ↦ rw (h, e) | inr h ↦ rw (h, e) ]
]

or-shuffle : (a b c : Bool) → ((a || b) || c) ≡ (b || (a || c))
or-shuffle true true c = refl
or-shuffle true false c = refl
or-shuffle false true c = refl
or-shuffle false false c = refl

step-order :
    (n e end : ℕ) → e ≤ end → (n == e || (leb (e + 1) n && leb n end)) ≡ (leb e n && leb n end)
step-order n e end h = ground arith

empty-order : (a : Bool) (n e end : ℕ) → end + 1 ≡ e → (a || (leb e n && leb n end)) ≡ a
empty-order a n e end h = ground arith

-- With a round for each number and one more, the loop adds the numbers of its range.
fill-parsed :
    (k fuel e end : ℕ) (set : List ℕ)
    → end < 2 ^ 63 - 1
    → end + 1 ≡ e + k
    → k < fuel
    → (next : List ℕ) × (fill fuel e end set ≡ parsed next)
      × ((n : ℕ) → has n next ≡ (has n set || (leb e n && leb n end)))
unfolding fill
fill-parsed k zero e end set b h f = absurd (omega arith)
fill-parsed zero (suc fuel) e end set b h f =
    let over : lt64 end e ≡ true =
      lt64_small end e (omega arith) (omega arith) ∙ lt→ltb end e (omega arith) in
    (set, rw over, λ n. sym (empty-order (has n set) n e end (omega arith)))
fill-parsed (suc k) (suc fuel) e end set b h f =
    let up = add64_small e 1 (omega arith) in
    let on : lt64 end e ≡ false =
      lt64_small end e (omega arith) (omega arith) ∙ le→ltb end e (omega arith) in
    let (next, done, members) =
      fill-parsed k fuel (add64 e 1) end (add e set) b (rw up (omega arith)) (omega arith) in
    (
      next,
      rw on done,
      λ n.
          members n
          ∙ (rw (has-add n e set, up)
              (or-shuffle (n == e) (has n set) (leb (e + 1) n && leb n end)
                ∙ ap (λ x. has n set || x) (step-order n e end (omega arith)))),
    )

-- The interval that a range stands for, if it is one, and those of a list.
unfoldable pub between : Option ℕ → Option ℕ → Option (ℕ × ℕ)
between none p = none
between (some lo) none = none
between (some lo) (some hi) = if lt64 hi lo then none else some (lo, hi)

unfoldable pub interval : Name → Option (ℕ × ℕ)
unfolding between
interval r = elim (cut r) [
  | none ↦ elim (atoi r) [ none ↦ none | some n ↦ some (n, n) ]
  | some (before, after) ↦ between (atoi before) (atoi_signed after)
]

unfoldable pub both : Option (ℕ × ℕ) → Option (List (ℕ × ℕ)) → Option (List (ℕ × ℕ))
both none is = none
both (some i) none = none
both (some i) (some is) = some (i ∷ is)

unfoldable pub intervals : List Name → Option (List (ℕ × ℕ))
unfolding interval both
intervals [] = some []
intervals (r ∷ rs) = both (interval r) (intervals rs)

unfoldable pub covers : List (ℕ × ℕ) → ℕ → Bool
covers [] n = false
covers ((lo, hi) ∷ is) n = (leb lo n && leb n hi) || covers is n

-- What comes of a list of intervals and a set that is there: an error if it is none, and otherwise
-- the numbers of the set and of the intervals.
unfoldable pub Adds : Option (List (ℕ × ℕ)) → List ℕ → Parsed → Type 0
unfolding covers
Adds none set p = p ≡ invalid
Adds (some is) set p =
    (next : List ℕ) × (p ≡ parsed next) × ((n : ℕ) → has n next ≡ (has n set || covers is n))

-- No range with a dash ends at the largest `int`.
unfoldable pub IsBounded : Name → Type 0
IsBounded r =
    (before after : Name) → cut r ≡ some (before, after) → atoi_signed after ≢ some (2 ^ 63 - 1)

negative-lt : (o : Option ℕ) (n : ℕ) → negative o ≡ some n → n < 2 ^ 64
unfolding negative
negative-lt none n e = absurd (none≢some e)
negative-lt (some m) n e = elim (Bool-cases (leb m (2 ^ 63))) [
  | inl h ↦
      let read : negative (some m) ≡ some ((2 ^ 64 - m) % 2 ^ 64) = rw h in
      let same : (2 ^ 64 - m) % 2 ^ 64 ≡ n = some_inj (sym read ∙ e) in omega arith
  | inr h ↦ let read : negative (some m) ≡ none = rw h in absurd (none≢some (sym read ∙ e))
]

atoi_signed-lt : (s : Name) (n : ℕ) → atoi_signed s ≡ some n → n < 2 ^ 64
unfolding atoi_signed
atoi_signed-lt [] n e = absurd (none≢some e)
atoi_signed-lt (c ∷ s) n e = elim (Bool-cases (c == dash)) [
  | inl h ↦ negative-lt (scan_digits s) n (sym (rw h refl) ∙ e)
  | inr h ↦ let small : n < 2 ^ 63 = atoi-lt (c ∷ s) n (sym (rw h refl) ∙ e) in omega arith
]

lt64-false :
    (hi lo : ℕ) → hi < 2 ^ 64 → lo < 2 ^ 63 → lt64 hi lo ≡ false → (lo ≤ hi) × (hi < 2 ^ 63)
unfolding lt64
lt64-false hi lo h l e = let f = ltb→le _ _ e in (omega arith, omega arith)

-- The outcome for one range.
Added : Option (ℕ × ℕ) → List ℕ → Parsed → Type 0
Added none set p = p ≡ invalid
Added (some (lo, hi)) set p =
    (next : List ℕ) × (p ≡ parsed next)
    × ((n : ℕ) → has n next ≡ (has n set || (leb lo n && leb n hi)))

add_between-Added :
    (fuel : ℕ) (o p : Option ℕ) (set : List ℕ)
    → 2 ^ 63 ≤ fuel
    → ((lo : ℕ) → o ≡ some lo → lo < 2 ^ 63)
    → ((hi : ℕ) → p ≡ some hi → hi < 2 ^ 64)
    → p ≢ some (2 ^ 63 - 1)
    → Added (between o p) set (add_between fuel o p set)
unfolding Added between add_between
add_between-Added fuel none p set f l h b = refl
add_between-Added fuel (some lo) none set f l h b = refl
add_between-Added fuel (some lo) (some hi) set f l h b = elim (Bool-cases (lt64 hi lo)) [
  | inl e ↦ rw e refl
  | inr e ↦
      let (ordered, small) = lt64-false hi lo (h hi refl) (l lo refl) e in
      let below : hi ≢ 2 ^ 63 - 1 = λ q. b (ap some q) in
      rw e (fill-parsed (hi + 1 - lo) fuel lo hi set (omega arith) (omega arith) (omega arith))
]

one-order : (n m : ℕ) (b : Bool) → (n == m || b) ≡ (b || (leb m n && leb n m))
one-order n m b = ground arith

add_one-Added :
    (o : Option ℕ) (set : List ℕ)
    → Added (elim o [ none ↦ none | some n ↦ some (n, n) ]) set (add_one o set)
unfolding Added add_one
add_one-Added none set = refl
add_one-Added (some m) set = (add m set, refl, λ n. has-add n m set ∙ one-order n m (has n set))

add_range-Added :
    (fuel : ℕ) (r : Name) (set : List ℕ)
    → 2 ^ 63 ≤ fuel
    → IsBounded r
    → Added (interval r) set (add_range fuel r set)
unfolding interval add_range IsBounded
add_range-Added fuel r set f b = elim (Option-cases (cut r)) [
  | inl e ↦ rw (e, interval, add_range) (add_one-Added (atoi r) set)
  | inr ((before, after), e) ↦
      rw (e, interval, add_range)
        (add_between-Added fuel (atoi before) (atoi_signed after) set f (atoi-lt before)
          (atoi_signed-lt after) (b before after e))
]

or_assoc : (a b c : Bool) → ((a || b) || c) ≡ (a || (b || c))
or_assoc true b c = refl
or_assoc false b c = refl

or_false : (a : Bool) → a ≡ (a || false)
or_false true = refl
or_false false = refl

-- One range, and those behind it.
then-Adds :
    (i : Option (ℕ × ℕ)) (js : Option (List (ℕ × ℕ))) (p : Parsed) (rest : List ℕ → Parsed)
    (set : List ℕ)
    → Added i set p
    → ((next : List ℕ) → Adds js next (rest next))
    → Adds
        (both i js)
        set
        (elim p [ parsed next ↦ rest next | invalid ↦ invalid | unfinished ↦ unfinished ])
unfolding Added Adds both covers
then-Adds none js p rest set a k = rw a refl
then-Adds (some (lo, hi)) none p rest set (next, e, members) k = rw e (k next)
then-Adds (some (lo, hi)) (some is) p rest set (next, e, members) k =
    let (all, done, more) = k next in
    rw e (
      (
        all,
        done,
        λ n.
            more n
            ∙ ap (λ x. x || covers is n) (members n)
            ∙ or_assoc (has n set) (leb lo n && leb n hi) (covers is n),
      ))

add_ranges-Adds :
    (fuel : ℕ) (rs : List Name) (set : List ℕ)
    → 2 ^ 63 ≤ fuel
    → All IsBounded rs
    → Adds (intervals rs) set (add_ranges fuel rs set)
unfolding intervals add_ranges Adds covers
add_ranges-Adds fuel [] set f b = (set, refl, λ n. or_false (has n set))
add_ranges-Adds fuel (r ∷ rs) set f (b, bs) =
    then-Adds (interval r) (intervals rs) (add_range fuel r set) (add_ranges fuel rs) set
      (add_range-Added fuel r set f b) (λ next. add_ranges-Adds fuel rs next f bs)

-- Parsing a text that is not empty, in which no range with a dash ends at the largest `int`, ends
-- within 2 ^ 63 rounds of a loop: with an error if one of the ranges is not an interval, and otherwise
-- with the set of the numbers of the intervals.
pub parse-Adds :
    (fuel c : ℕ) (s : Name)
    → 2 ^ 63 ≤ fuel
    → All IsBounded (split_ranges (c ∷ s))
    → Adds (intervals (split_ranges (c ∷ s))) [] (parse fuel (c ∷ s))
unfolding parse
parse-Adds fuel c s f b = add_ranges-Adds fuel (split_ranges (c ∷ s)) [] f b
