-- ===== src/Webhook/Field.antt =====
-- Kubernetes' `field.Path`, `field.Error` and `field.ErrorList`, as the validators build them, and
-- the shapes of their code: guards, optional parts, indexed loops.
use ch_vmm.Prelude.{
  ℕ, ◌+◌, String, ◌≡◌, refl, ◌↔◌, ◌≢◌, Bool, true, false, List, [], ◌∷◌, ◌++◌, Option, none, some,
  arith, if◌then◌else◌, str_eq, eq_iff, All, Bool-cases, ◌⊎◌, inl, inr, ltb, ◌==◌,
}

pub data Step : Type 0 where
  child : String → Step
  index : ℕ → Step

-- The steps from the innermost to the root.
abbrev pub FieldPath : Type 0
FieldPath = List Step

pub data Kind : Type 0 where
  required invalid forbidden : Kind

-- `field.Error`, without the value that it quotes.
pub record Error : Type 0 where
  pub kind : Kind
  pub path : FieldPath
  pub detail : String

abbrev pub ErrorList : Type 0
ErrorList = List Error

abbrev pub error : Kind → FieldPath → String → Error
error k p d = record { kind = k; path = p; detail = d }

-- `s == ""`
abbrev pub is_blank : String → Bool
is_blank s = str_eq s ""

pub is_blank_iff : (s : String) → (is_blank s ≡ false) ↔ (s ≢ "")
is_blank_iff s = ground (arith, eq_iff s "")

-- `if b { errList = append(errList, e) }`
abbrev pub when : Bool → Error → ErrorList
when b e = if b then e ∷ [] else []

-- `errList = append(errList, a...)`, for each list in turn.
abbrev pub join : List ErrorList → ErrorList
join [] = []
join (a ∷ rest) = a ++ join rest

-- `if o != nil { errList = append(errList, f(o)...) }`
abbrev pub on {ℓ} : {A : Type ℓ} → Option A → (A → ErrorList) → ErrorList
on none f = []
on (some a) f = f a

-- `for i := range xs { errList = append(errList, f(xs[i], path.Index(i))...) }`
abbrev pub each {ℓ} :
    {A : Type ℓ} → (A → FieldPath → ErrorList) → FieldPath → ℕ → List A → ErrorList
each f p i [] = []
each f p i (x ∷ xs) = f x (index i ∷ p) ++ each f p (i + 1) xs

-- `if x != nil { count++ }`
abbrev pub tick {ℓ} : {A : Type ℓ} → Option A → ℕ
tick none = 0
tick (some a) = 1

-- A list of checks passes exactly when `P` holds.
abbrev pub Decides : ErrorList → Type 0 → Type 0
Decides errs P = (errs ≡ []) ↔ P

pub Decides-when : (b : Bool) (e : Error) → Decides (when b e) (b ≡ false)
Decides-when b e = ground arith

pub Decides-blank : (s : String) (e : Error) → Decides (when (is_blank s) e) (s ≢ "")
Decides-blank s e = ground (arith, eq_iff s "")

pub Decides-append :
    {a b : ErrorList} {P Q : Type 0} → Decides a P → Decides b Q → Decides (a ++ b) (P × Q)
Decides-append {a = []} p q = ((λ h. (p.0 refl, q.0 h)), (λ h. q.1 h.1))
Decides-append {a = x ∷ a} p q = ((λ h. cc), (λ h. absurd (cc (p.1 h.0))))

pub Decides-nil : Decides [] Unit
Decides-nil = ((λ h. tt), (λ h. refl))

-- What an optional part must satisfy.
abbrev pub OnSome : {A : Type 0} → (A → Type 0) → Option A → Type 0
OnSome P none = Unit
OnSome P (some a) = P a

pub Decides-on :
    {A : Type 0} {P : A → Type 0} (o : Option A) (f : A → ErrorList)
    → ((a : A) → Decides (f a) (P a))
    → Decides (on o f) (OnSome P o)
Decides-on none f h = Decides-nil
Decides-on (some a) f h = h a

pub Decides-each :
    {A : Type 0} {P : A → Type 0} (f : A → FieldPath → ErrorList) (p : FieldPath) (i : ℕ)
    (xs : List A)
    → ((a : A) (q : FieldPath) → Decides (f a q) (P a))
    → Decides (each f p i xs) (All P xs)
Decides-each f p i [] h = Decides-nil
Decides-each f p i (x ∷ xs) h = Decides-append (h x (index i ∷ p)) (Decides-each f p (i + 1) xs h)

pub Decides-iff : {a : ErrorList} {P Q : Type 0} → Decides a P → P ↔ Q → Decides a Q
Decides-iff d e = ((λ h. e.0 (d.0 h)), (λ h. d.1 (e.1 h)))

-- No flag is set; exactly one is.
abbrev pub NoneOf : List Bool → Type 0
NoneOf [] = Unit
NoneOf (b ∷ bs) = (b ≡ false) × NoneOf bs

abbrev pub OneOf : List Bool → Type 0
OneOf [] = ⊥
OneOf (true ∷ bs) = NoneOf bs
OneOf (false ∷ bs) = OneOf bs

abbrev pub is_set {ℓ} : {A : Type ℓ} → Option A → Bool
is_set none = false
is_set (some a) = true

abbrev pub total : List Bool → ℕ
total [] = 0
total (b ∷ bs) = (if b then 1 else 0) + total bs

total_none : (bs : List Bool) → (total bs ≡ 0) ↔ NoneOf bs
total_none [] = ((λ h. tt), (λ h. refl))
total_none (true ∷ bs) = ((λ h. absurd (omega arith)), (λ h. cc (h.0)))
total_none (false ∷ bs) =
    ((λ h. (refl, (total_none bs).0 (omega arith))), (λ h. omega (arith, (total_none bs).1 h.1)))

total_one : (bs : List Bool) → (total bs ≡ 1) ↔ OneOf bs
total_one [] = ((λ h. absurd (omega arith)), (λ h. absurd h))
total_one (true ∷ bs) =
    ((λ h. (total_none bs).0 (omega arith)), (λ h. omega (arith, (total_none bs).1 h)))
total_one (false ∷ bs) =
    ((λ h. (total_one bs).0 (omega arith)), (λ h. omega (arith, (total_one bs).1 h)))

Decides-one :
    (n : ℕ) (x y : Error) → Decides (join (when (n == 0) x ∷ when (ltb 1 n) y ∷ [])) (n ≡ 1)
Decides-one n x y = ground arith

-- The two checks on a count of parts pass exactly if one part is given.
pub Decides-OneOf :
    (bs : List Bool) (n : ℕ) (x y : Error)
    → n ≡ total bs
    → Decides (join (when (n == 0) x ∷ when (ltb 1 n) y ∷ [])) (OneOf bs)
Decides-OneOf bs n x y e =
    Decides-iff (Decides-one n x y)
      ((λ h. (total_one bs).0 (omega arith)), (λ h. omega (arith, (total_one bs).1 h)))

pub tick-total {ℓ} : {A : Type ℓ} (o : Option A) → tick o ≡ (if is_set o then 1 else 0)
tick-total none = refl
tick-total (some a) = refl

-- A check that is made only of a text that is given, and one that follows the check for a blank.
pub Decides-given :
    (s : String) {a : ErrorList} {P : Type 0}
    → Decides a P
    → Decides (if is_blank s then [] else a) ((s ≡ "") ⊎ P)
Decides-given s d = elim (Bool-cases (is_blank s)) [
  | inl e ↦ rw e ((λ h. inl ((eq_iff s "").0 e)), (λ h. refl))
  | inr e ↦ rw e (
    (λ h. inr (d.0 h)),
    (λ h. elim h [ inl b ↦ absurd ((is_blank_iff s).0 e b) | inr p ↦ d.1 p ]),
  )
]

pub Decides-required :
    (s : String) (x : Error) {a : ErrorList} {P : Type 0}
    → Decides a P
    → Decides (if is_blank s then x ∷ [] else a) ((s ≢ "") × P)
Decides-required s x d = elim (Bool-cases (is_blank s)) [
  | inl e ↦ rw e ((λ h. cc), (λ h. absurd (h.0 ((eq_iff s "").0 e))))
  | inr e ↦ rw e ((λ h. ((is_blank_iff s).0 e, d.0 h)), (λ h. d.1 h.1))
]
