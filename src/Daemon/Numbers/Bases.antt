-- ===== src/Daemon/Numbers/Bases.antt =====
-- The numbers of a device that `stat` gives in base 16, read in base 26.
use ch_vmm.Prelude.{
  ℕ, String, true, ◌+◌, ◌-◌, ◌*◌, ◌^◌, ◌≤◌, ◌<◌, ◌≡◌, refl, sym, ap, subst, ◌∙◌, ◌↔◌, ◌⊎◌, inl, inr,
  List, [], ◌∷◌, Option, none, some, none≢some, some_inj, if◌then◌else◌, ltb, ltb→lt, lt→ltb, ◌==◌,
  ==_iff, arith, Bool-cases,
}
use ch_vmm.Controller.Names.{Name, dash}
use ch_vmm.Controller.Program.{done, ok, return, ◌>>=◌}
use ch_vmm.Daemon.{Rule, Server, Node, Vm, State, stat_numbers}
use ch_vmm.Daemon.Cgroup.{found_numbers, numbers_of, rule_if}
use ch_vmm.Daemon.Numbers.{
  digit_value, scan_base, in_bound, scan_some, minus, parse_int32, both, split_fields, fields,
  device_numbers,
}

-- A step of a scan that comes to a number.
scan-cons :
    (base acc c n : ℕ) (s : Name)
    → scan_base base acc (c ∷ s) ≡ some n
    → (digit_value c < base) × (scan_base base (acc * base + digit_value c) s ≡ some n)
unfolding scan_base
scan-cons base acc c n s h = elim (Bool-cases (ltb (digit_value c) base)) [
  | inl e ↦ (
    ltb→lt _ _ e,
    subst (λ b. (if b then scan_base base (acc * base + digit_value c) s else none) ≡ some n) e h,
  )
  | inr e ↦ absurd (
      none≢some (
        subst (λ b. (if b then scan_base base (acc * base + digit_value c) s else none) ≡ some n) e
          h))
]

scan-le : (acc n : ℕ) (s : Name) → scan_base 16 acc s ≡ some n → acc ≤ n
unfolding scan_base
scan-le acc n [] h = omega (arith, some_inj h)
scan-le acc n (c ∷ s) h =
    let (small, rest) = scan-cons 16 acc c n s h in
    omega (arith, scan-le (acc * 16 + digit_value c) n s rest)

-- A digit alone has the same value in both bases.
scan_small :
    (n : ℕ) (s : Name) (acc : ℕ)
    → scan_base 16 acc s ≡ some n
    → n < 16
    → scan_base 26 acc s ≡ some n
unfolding scan_base
scan_small n [] acc h l = h
scan_small n (c ∷ s) acc h l =
    let (small, rest) = scan-cons 16 acc c n s h in
    let low = scan-le (acc * 16 + digit_value c) n s rest in
    let zero_acc : acc * 26 + digit_value c ≡ acc * 16 + digit_value c = omega arith in
    rw (lt→ltb (digit_value c) 26 (omega arith), zero_acc)
      (scan_small n s (acc * 16 + digit_value c) rest l)

-- Of two digits or more the value is larger in base 26.
scan-lt :
    (n m : ℕ) (s : Name) (a b : ℕ)
    → scan_base 16 a s ≡ some n
    → scan_base 26 b s ≡ some m
    → (a < b) ⊎ ((a ≡ b) × (a < 16) × (16 ≤ n))
    → n < m
unfolding scan_base
scan-lt n m [] a b h k (inl l) = omega (arith, some_inj h, some_inj k)
scan-lt n m [] a b h k (inr (e, l, g)) = absurd (omega (arith, some_inj h))
scan-lt n m (c ∷ s) a b h k p =
    let (small, rest) = scan-cons 16 a c n s h in
    let (large, rest') = scan-cons 26 b c m s k in
    scan-lt n m s (a * 16 + digit_value c) (b * 26 + digit_value c) rest rest'
      (elim p [ inl l ↦ inl (omega arith) | inr (e, l, g) ↦ next a b (digit_value c) e small g ])
  where
    next :
        (a b d : ℕ)
        → a ≡ b
        → d < 16
        → 16 ≤ n
        → (a * 16 + d < b * 26 + d) ⊎ ((a * 16 + d ≡ b * 26 + d) × (a * 16 + d < 16) × (16 ≤ n))
    next a b d e l g = elim (Bool-cases (a == 0)) [
      | inl z ↦ let z' = (==_iff a 0).0 z in inr (omega arith, omega arith, g)
      | inr z ↦ inl (ground arith)
    ]

in_bound-some :
    (limit n : ℕ) (o : Option ℕ) → in_bound limit o ≡ some n → (o ≡ some n) × (n < limit)
unfolding in_bound
in_bound-some limit n none h = absurd (none≢some h)
in_bound-some limit n (some m) h = elim (Bool-cases (ltb m limit)) [
  | inl e ↦
      let read : in_bound limit (some m) ≡ some m = rw e in
      let same : m ≡ n = some_inj (sym read ∙ h) in
      (ap some same, subst (λ x. x < limit) same (ltb→lt m limit e))
  | inr e ↦ let read : in_bound limit (some m) ≡ none = rw e in absurd (none≢some (sym read ∙ h))
]

in_bound-lt : (limit n : ℕ) (o : Option ℕ) → o ≡ some n → n < limit → in_bound limit o ≡ some n
unfolding in_bound
in_bound-lt limit n o h l = rw (h, in_bound, lt→ltb n limit l)

minus-some :
    (limit n : ℕ) (o : Option ℕ)
    → limit ≤ 2 ^ 32
    → minus (in_bound limit o) ≡ some n
    → n < 2 ^ 31
    → (o ≡ some 0) × (n ≡ 0)
unfolding minus in_bound
minus-some limit n none b h l = absurd (none≢some h)
minus-some limit n (some m) b h l = elim (Bool-cases (ltb m limit)) [
  | inl e ↦
      let read : minus (in_bound limit (some m)) ≡ some (if m == 0 then 0 else 2 ^ 64 - m) = rw e in
      let value : (if m == 0 then 0 else 2 ^ 64 - m) ≡ n = some_inj (sym read ∙ h) in
      let below : m < limit = ltb→lt m limit e in
      let zero_m : m ≡ 0 = ground arith in (ap some zero_m, ground arith)
  | inr e ↦
      let read : minus (in_bound limit (some m)) ≡ none = rw e in absurd (none≢some (sym read ∙ h))
]

scan_some_small : (n : ℕ) (s : Name) → scan_some 16 s ≡ some n → n < 16 → scan_some 26 s ≡ some n
unfolding scan_some
scan_some_small n [] h l = absurd (none≢some h)
scan_some_small n (c ∷ s) h l = scan_small n (c ∷ s) 0 h l

scan_some-lt :
    (n m : ℕ) (s : Name) → scan_some 16 s ≡ some n → scan_some 26 s ≡ some m → 16 ≤ n → n < m
unfolding scan_some
scan_some-lt n m [] h k g = absurd (none≢some h)
scan_some-lt n m (c ∷ s) h k g = scan-lt n m (c ∷ s) 0 0 h k (inr (refl, omega arith, g))

-- A number without a sign.
unsigned_iff :
    (s : Name) (a : ℕ)
    → in_bound (2 ^ 31) (scan_some 16 s) ≡ some a
    → (in_bound (2 ^ 31) (scan_some 26 s) ≡ some a) ↔ (a < 16)
unsigned_iff s a h =
    let (low, small) = in_bound-some (2 ^ 31) a (scan_some 16 s) h in
    (
      (λ k. elim (Bool-cases (ltb a 16)) [
        | inl e ↦ ltb→lt a 16 e
        | inr e ↦
            let (high, _) = in_bound-some (2 ^ 31) a (scan_some 26 s) k in
            absurd (omega (arith, scan_some-lt a a s low high (ground arith)))
      ]),
      (λ l. in_bound-lt (2 ^ 31) a (scan_some 26 s) (scan_some_small a s low l) small),
    )

-- One number of a device.
parse_iff :
    (s : Name) (a : ℕ)
    → parse_int32 16 s ≡ some a
    → a < 2 ^ 31
    → (parse_int32 26 s ≡ some a) ↔ (a < 16)
unfolding parse_int32
parse_iff [] a h l = absurd (none≢some h)
parse_iff (c ∷ s) a h l = elim (Bool-cases (c == dash)) [
  | inl e ↦
      let signed : parse_int32 16 (c ∷ s) ≡ minus (in_bound (2 ^ 31 + 1) (scan_some 16 s)) = rw e in
      let (low, z) = minus-some (2 ^ 31 + 1) a (scan_some 16 s) (omega arith) (sym signed ∙ h) l in
      let high = scan_some_small 0 s low (omega arith) in
      rw (e, parse_int32)
        (
          (λ _. omega arith),
          (λ _. rw (in_bound-lt (2 ^ 31 + 1) 0 (scan_some 26 s) high (omega arith), z)),
        )
  | inr e ↦ elim (Bool-cases (c == b'+')) [
    | inl p ↦
        let plus : parse_int32 16 (c ∷ s) ≡ in_bound (2 ^ 31) (scan_some 16 s) = rw (e, p) in
        rw (e, p, parse_int32) (unsigned_iff s a (sym plus ∙ h))
    | inr p ↦
        let plain : parse_int32 16 (c ∷ s) ≡ in_bound (2 ^ 31) (scan_some 16 (c ∷ s)) = rw (e, p) in
        rw (e, p, parse_int32) (unsigned_iff (c ∷ s) a (sym plain ∙ h))
  ]
]

both-some : (x y : Option ℕ) (a b : ℕ) → both x y ≡ some (a, b) → (x ≡ some a) × (y ≡ some b)
unfolding both
both-some none y a b h = absurd (none≢some h)
both-some (some x) none a b h = absurd (none≢some h)
both-some (some x) (some y) a b h =
    let e = some_inj h in (ap (λ p. some (p.0)) e, ap (λ p. some (p.1)) e)

-- The numbers of the fields of a line.
fields_iff :
    (f : List Name) (a b : ℕ)
    → fields 16 f ≡ some (a, b)
    → a < 2 ^ 31
    → b < 2 ^ 31
    → (fields 26 f ≡ some (a, b)) ↔ ((a < 16) × (b < 16))
unfolding fields
fields_iff [] a b h la lb = absurd (none≢some h)
fields_iff (x ∷ []) a b h la lb = absurd (none≢some h)
fields_iff (x ∷ y ∷ []) a b h la lb = absurd (none≢some h)
fields_iff (x ∷ y ∷ z ∷ []) a b h la lb = absurd (none≢some h)
fields_iff (x ∷ y ∷ z ∷ w ∷ v ∷ f) a b h la lb = absurd (none≢some h)
fields_iff (x ∷ y ∷ z ∷ w ∷ []) a b h la lb =
    let (p, q) = both-some (parse_int32 16 x) (parse_int32 16 y) a b h in
    let (to_a, from_a) = parse_iff x a p la in
    let (to_b, from_b) = parse_iff y b q lb in
    (
      (λ k. let (r, t) = both-some (parse_int32 26 x) (parse_int32 26 y) a b k in (to_a r, to_b t)),
      (λ k. rw (from_a (k.0), from_b (k.1), both)),
    )

-- The output of `stat` for a device, in both bases.
device_numbers-bases :
    (output : Name) (a b : ℕ)
    → device_numbers 16 output ≡ some (a, b)
    → a < 2 ^ 31
    → b < 2 ^ 31
    → (device_numbers 26 output ≡ some (a, b)) ↔ ((a < 16) × (b < 16))
unfolding device_numbers
device_numbers-bases output a b h la lb = fields_iff (split_fields output) a b h la lb

-- The rule that allows a block device.
abbrev pub block_rule : ℕ → ℕ → Rule
block_rule a b = record { is_block = true; major = a; minor = b; allow = true }

module _ (server : Server) (node : Node) (vm : Vm) where
  numbers-block_rule :
      (found : Option (ℕ × ℕ)) (a b : ℕ) (s : State)
      → ((found_numbers server node vm found >>= λ n. return (block_rule n.0 n.1 ∷ [])) s).0
          ≡ ok (block_rule a b ∷ [])
        ↔ (found ≡ some (a, b))
  unfolding found_numbers
  numbers-block_rule none a b s = ((λ h. cc), (λ h. cc))
  numbers-block_rule (some (c, d)) a b s = ((λ h. cc), (λ h. cc))

  -- Where `stat` answers with two numbers below 2 ^ 31, as the kernel writes them, in base 16, the rule
  -- for a volume whose file is there allows the block device with these numbers exactly if both are
  -- below 16.
  pub rule_if-block_rule :
      (path : String) (s : State) (a b : ℕ)
      → server.answer s.1 (stat_numbers path) ≡ done
      → device_numbers 16 (server.output s.1) ≡ some (a, b)
      → a < 2 ^ 31
      → b < 2 ^ 31
      → ((rule_if server node vm done path s).0 ≡ ok (block_rule a b ∷ [])) ↔ ((a < 16) × (b < 16))
  unfolding rule_if numbers_of
  rule_if-block_rule path s a b answered h la lb =
      let (to, from) = device_numbers-bases (server.output s.1) a b h la lb in
      let (found, given) =
        numbers-block_rule (device_numbers 26 (server.output s.1)) a b
          (s.0, stat_numbers path ∷ s.1) in
      rw (answered, numbers_of) ((λ k. to (found k)), (λ k. given (from k)))
