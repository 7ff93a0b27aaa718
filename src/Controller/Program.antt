-- ===== src/Controller/Program.antt =====
-- What a reconciler is: a program over a state, which returns, fails or panics, and keeps the state
-- in each case. The answers of the calls that it makes are those of the Kubernetes client.
use ch_vmm.Prelude.{
  ℕ, ap, ◌≡◌, refl, ◌∙◌, sym, subst, if◌then◌else◌, ◌≢◌, ◌⊎◌, inl, inr, Bool, true, false, List,
  Option, none, some, get_elem?,
}

-- A call succeeds or fails; three failures have meanings of their own.
pub data Answer : Type 0 where
  done not_found already_exists conflict failed : Answer

-- The error of a reconciler: that of a call, or one that only asks to be called again.
pub data Failure : Type 0 where
  refused : Answer → Failure
  later : Failure

pub Answer-cases :
    (a : Answer)
    → (a ≡ done) ⊎ (a ≡ not_found) ⊎ (a ≡ already_exists) ⊎ (a ≡ conflict) ⊎ (a ≡ failed)
Answer-cases done = inl refl
Answer-cases not_found = inr (inl refl)
Answer-cases already_exists = inr (inr (inl refl))
Answer-cases conflict = inr (inr (inr (inl refl)))
Answer-cases failed = inr (inr (inr (inr refl)))

-- `ctrl.Result`: nothing to do, or a call again, at once or after a time.
pub data Outcome : Type 0 where
  settled again in_five_seconds in_fifteen_seconds in_half_a_minute in_a_minute : Outcome

pub data Result {ℓ} (A : Type ℓ) : Type ℓ where
  ok : A → Result A
  err : Failure → Result A
  panicked : Result A

abbrev pub Program : Type 0 → Type 0 → Type 0
Program S A = S → Result A × S

abbrev pub bind : {S A B : Type 0} → Result A × S → (A → Program S B) → Result B × S
bind (ok a, t) f = f a t
bind (err e, t) f = (err e, t)
bind (panicked, t) f = (panicked, t)

infixl 5 ◌>>◌ ◌>>=◌
abbrev pub ◌>>=◌ : {S A B : Type 0} → Program S A → (A → Program S B) → Program S B
◌>>=◌ program next t = bind (program t) next

abbrev pub ◌>>◌ : {S B : Type 0} → Program S (Unit {0}) → Program S B → Program S B
◌>>◌ m k t = bind (m t) (λ _. k)

abbrev pub return : {S A : Type 0} → A → Program S A
return a t = (ok a, t)

abbrev pub fail : {S A : Type 0} → Answer → Program S A
fail e t = (err (refused e), t)

-- `items[i]`
abbrev pub item_at : {S A : Type 0} → List A → ℕ → Program S A
item_at xs i t = elim (get_elem? xs i) [ none ↦ (panicked, t) | some x ↦ (ok x, t) ]

-- `if err != nil { return err }`
abbrev pub must : {S : Type 0} → Answer → Program S (Unit {0})
must done = return tt
must e = fail e

pub must-return :
    {S A : Type 0} (a : Answer) (x : A) (t : S)
    → bind (must a t) (λ _. return x) ≡ (elim a [ done ↦ ok x | e ↦ err (refused e) ], t)
must-return done x t = refl
must-return not_found x t = refl
must-return already_exists x t = refl
must-return conflict x t = refl
must-return failed x t = refl

-- `if err != nil && !apierrors.IsNotFound(err) { return err }`
abbrev pub must_or_missing : {S : Type 0} → Answer → Program S (Unit {0})
must_or_missing done = return tt
must_or_missing not_found = return tt
must_or_missing e = fail e

-- `if err != nil && !apierrors.IsAlreadyExists(err) { return err }`
abbrev pub must_or_exists : {S : Type 0} → Answer → Program S (Unit {0})
must_or_exists done = return tt
must_or_exists already_exists = return tt
must_or_exists e = fail e

-- Whether an object is there; any failure but "not found" ends the call.
abbrev pub present : {S : Type 0} → Answer → Program S Bool
present done = return true
present not_found = return false
present e = fail e

abbrev pub NoPanic : {S A : Type 0} → Program S A → Type 0
NoPanic {S} m = (t : S) → (m t).0 ≢ panicked

pub bind-NoPanic :
    {S A B : Type 0} (r : Result A × S) (f : A → Program S B)
    → r.0 ≢ panicked
    → ((a : A) → NoPanic (f a))
    → (bind r f).0 ≢ panicked
bind-NoPanic (ok a, t) f h k = k a t
bind-NoPanic (err e, t) f h k = λ e'. cc
bind-NoPanic (panicked, t) f h k = absurd (h refl)

-- Whether an answer means that the object is gone.
abbrev pub Gone : Answer → Type 0
Gone a = (a ≡ done) ⊎ (a ≡ not_found)

pub must_or_missing-Gone :
    {S : Type 0} (a : Answer) (t : S) → Gone a → must_or_missing a t ≡ (ok tt, t)
must_or_missing-Gone a t (inl e) = rw e
must_or_missing-Gone a t (inr e) = rw e

pub item_at-some :
    {S A : Type 0} (xs : List A) (i : ℕ) (x : A) (t : S)
    → get_elem? xs i ≡ some x
    → item_at xs i t ≡ (ok x, t)
item_at-some xs i x t e = rw (e, item_at)

pub bind-panicked :
    {S A B : Type 0} (r : Result A × S) (f : A → Program S B)
    → r.0 ≡ panicked
    → (bind r f).0 ≡ panicked
bind-panicked (ok a, t) f e = cc
bind-panicked (err a, t) f e = cc
bind-panicked (panicked, t) f e = refl

-- A program that leaves a part of its state as it is.
pub record Keeps {S T A : Type 0} (view : S → T) (m : Program S A) : Type 0 where
  pub kept : (s : S) → view (m s).1 ≡ view s

module _ {S T : Type 0} {view : S → T} where
  pub return-Keeps : {A : Type 0} (a : A) → Keeps view (return {S = S} a)
  return-Keeps a = record { kept = λ s. refl }

  pub bind-Keeps :
      {A B : Type 0} {m : Program S A} {f : A → Program S B}
      → Keeps view m
      → ((a : A) → Keeps view (f a))
      → Keeps view (m >>= f)
  bind-Keeps {A} {B} {m} {f} h k = record { kept = λ s. behind s (m s) (h.kept s) }
    where
      behind : (s : S) (r : Result A × S) → view r.1 ≡ view s → view (bind r f).1 ≡ view s
      behind s (ok a, t) e = (k a).kept t ∙ e
      behind s (err x, t) e = e
      behind s (panicked, t) e = e

  pub then-Keeps :
      {B : Type 0} {m : Program S (Unit {0})} {k : Program S B}
      → Keeps view m
      → Keeps view k
      → Keeps view (m >> k)
  then-Keeps h k = record { kept = λ s. (bind-Keeps h (λ _. k)).kept s }

  pub must-Keeps : (a : Answer) → Keeps view (must a)
  must-Keeps done = record { kept = λ s. refl }
  must-Keeps not_found = record { kept = λ s. refl }
  must-Keeps already_exists = record { kept = λ s. refl }
  must-Keeps conflict = record { kept = λ s. refl }
  must-Keeps failed = record { kept = λ s. refl }

  pub must_or_missing-Keeps : (a : Answer) → Keeps view (must_or_missing a)
  must_or_missing-Keeps done = record { kept = λ s. refl }
  must_or_missing-Keeps not_found = record { kept = λ s. refl }
  must_or_missing-Keeps already_exists = record { kept = λ s. refl }
  must_or_missing-Keeps conflict = record { kept = λ s. refl }
  must_or_missing-Keeps failed = record { kept = λ s. refl }

  pub if-Keeps :
      {A : Type 0} {m k : Program S A} (b : Bool)
      → Keeps view m
      → Keeps view k
      → Keeps view (if b then m else k)
  if-Keeps true h k = h
  if-Keeps false h k = k

  -- A case of an option.
  pub option-Keeps :
      {A B : Type 0} (o : Option A) {m : Program S B} {f : A → Program S B}
      → Keeps view m
      → ((a : A) → Keeps view (f a))
      → Keeps view (elim o [ none ↦ m | some a ↦ f a ])
  option-Keeps none h k = h
  option-Keeps (some a) h k = k a

-- What keeps a part of the state keeps what is read of that part.
pub Keeps-coarser :
    {S T U A : Type 0} {view : S → T} {m : Program S A} (read : T → U)
    → Keeps view m
    → Keeps (λ s. read (view s)) m
Keeps-coarser read h = record { kept = λ s. ap read (h.kept s) }

-- From a state with the first property, a program ends in one with the second, however it ends.
pub record Leads {S A : Type 0} (P Q : S → Type 0) (m : Program S A) : Type 0 where
  pub led : (s : S) → P s → Q (m s).1

module _ {S : Type 0} {P R Q : S → Type 0} where
  pub bind-Leads :
      {A B : Type 0} {m : Program S A} {f : A → Program S B}
      → Leads P R m
      → ((a : A) → Leads R Q (f a))
      → ((s : S) → R s → Q s)
      → Leads P Q (m >>= f)
  bind-Leads {A} {B} {m} {f} h k stop = record { led = λ s p. behind (m s) (h.led s p) }
    where
      behind : (r : Result A × S) → R r.1 → Q (bind r f).1
      behind (ok a, t) e = (k a).led t e
      behind (err x, t) e = stop t e
      behind (panicked, t) e = stop t e

  pub then-Leads :
      {B : Type 0} {m : Program S (Unit {0})} {k : Program S B}
      → Leads P R m
      → Leads R Q k
      → ((s : S) → R s → Q s)
      → Leads P Q (m >> k)
  then-Leads h k stop = record { led = λ s p. (bind-Leads h (λ _. k) stop).led s p }

-- A program that leaves a part of its state as it is, or changes it to what has a property.
pub record Changes {S T A : Type 0} (view : S → T) (P : T → Type 0) (m : Program S A) : Type 0 where
  pub changed : (s : S) → (view (m s).1 ≡ view s) ⊎ P (view (m s).1)

module _ {S T : Type 0} {view : S → T} {P : T → Type 0} where
  pub Keeps-Changes : {A : Type 0} {m : Program S A} → Keeps view m → Changes view P m
  Keeps-Changes h = record { changed = λ s. inl (h.kept s) }

  pub bind-Changes :
      {A B : Type 0} {m : Program S A} {f : A → Program S B}
      → Changes view P m
      → ((a : A) → Changes view P (f a))
      → Changes view P (m >>= f)
  bind-Changes {A} {B} {m} {f} h k = record { changed = λ s. behind s (m s) (h.changed s) }
    where
      behind :
          (s : S) (r : Result A × S)
          → (view r.1 ≡ view s) ⊎ P (view r.1)
          → (view (bind r f).1 ≡ view s) ⊎ P (view (bind r f).1)
      behind s (ok a, t) (inl e) = elim ((k a).changed t) [ inl e' ↦ inl (e' ∙ e) | inr p ↦ inr p ]
      behind s (ok a, t) (inr p) = elim ((k a).changed t) [
        | inl e' ↦ inr (subst P (sym e') p)
        | inr p' ↦ inr p'
      ]
      behind s (err x, t) h' = h'
      behind s (panicked, t) h' = h'

  pub then-Changes :
      {B : Type 0} {m : Program S (Unit {0})} {k : Program S B}
      → Changes view P m
      → Changes view P k
      → Changes view P (m >> k)
  then-Changes h k = record { changed = λ s. (bind-Changes h (λ _. k)).changed s }

  pub if-Changes :
      {A : Type 0} {m k : Program S A} (b : Bool)
      → Changes view P m
      → Changes view P k
      → Changes view P (if b then m else k)
  if-Changes true h k = h
  if-Changes false h k = k

  pub option-Changes :
      {A B : Type 0} (o : Option A) {m : Program S B} {f : A → Program S B}
      → Changes view P m
      → ((a : A) → Changes view P (f a))
      → Changes view P (elim o [ none ↦ m | some a ↦ f a ])
  option-Changes none h k = h
  option-Changes (some a) h k = k a
