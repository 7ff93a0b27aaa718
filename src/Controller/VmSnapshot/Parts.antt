-- ===== src/Controller/VmSnapshot/Parts.antt =====
-- A machine's snapshot keeps its finalizer until all its parts are deleted.
use ch_vmm.Prelude.{
  ◌≡◌, refl, ◌⊎◌, inl, inr, Bool, Bool-cases, true, false, List, [], ◌∷◌, arith, if◌then◌else◌,
}
use ch_vmm.Controller.Names.{Name}
use ch_vmm.Controller.Program.{
  Answer, Answer-cases, done, Result, ok, err, panicked, Gone, Program, Leads, bind-Leads, ◌>>=◌,
}
use ch_vmm.Controller.VmSnapshot.{
  VmSnapshot, Request, get_snapshot, remove_finalizer, delete_disk, event, Trace, delete_object,
  call, tell_memory, delete_memory, tell_disk, delete_disks, delete_snapshot, release,
  reconcile_deleted, guarded_or_again, written_or_again, first_phase, schedule, reconcile_kept,
  found_snapshot, reconcile,
}

-- A request of this kind was made, at the trace it met.
unfoldable pub Past : (Request → Trace → Type 0) → Trace → Type 0
Past P [] = ⊥
Past P (r ∷ t) = P r t ⊎ Past P t

module _ (answers : Trace → Request → Answer) where
  -- A deletion of the disk found it gone, and one of the memory succeeded.
  unfoldable pub DiskDeleted : Name → Trace → Type 0
  unfolding Past
  DiskDeleted d = Past (λ r t. (r ≡ delete_disk d) × Gone (answers t r))

  unfoldable pub MemoryDeleted : VmSnapshot → Trace → Type 0
  unfolding Past
  MemoryDeleted s = Past (λ r t. (r ≡ delete_object s) × (answers t r ≡ done))

  unfoldable pub AllDeleted : List Name → Trace → Type 0
  unfolding DiskDeleted
  AllDeleted [] t = Unit {0}
  AllDeleted (d ∷ ds) t = DiskDeleted d t × AllDeleted ds t

  -- All parts of a snapshot are deleted.
  unfoldable pub Cleared : VmSnapshot → Trace → Type 0
  unfolding AllDeleted MemoryDeleted
  Cleared s t = ((s.skip_memory ≡ true) ⊎ MemoryDeleted s t) × AllDeleted s.disks t

  -- Each removal of the finalizer came when they were.
  unfoldable pub Protects : VmSnapshot → Trace → Type 0
  unfolding Cleared
  Protects s [] = Unit {0}
  Protects s (remove_finalizer ∷ t) = Cleared s t × Protects s t
  Protects s (r ∷ t) = Protects s t

  -- Deleting disks forgets nothing.
  delete_disks-Past :
      (P : Request → Trace → Type 0) (ds : List Name) (t : Trace)
      → Past P t
      → Past P (delete_disks answers ds t).1
  unfolding delete_disks tell_disk Past
  delete_disks-Past P [] t h = h
  delete_disks-Past P (d ∷ ds) t h =
      let told : Trace = event "VirtualDiskSnapshotDeleted" ∷ delete_disk d ∷ t in
      let left = delete_disks-Past P ds told (inr (inr h)) in
      elim (Answer-cases (answers t (delete_disk d))) [
        | inl e ↦ rw e left
        | inr (inl e) ↦ rw e left
        | inr (inr (inl e)) ↦ rw e (inr (inr h))
        | inr (inr (inr (inl e))) ↦ rw e (inr (inr h))
        | inr (inr (inr (inr e))) ↦ rw e (inr (inr h))
      ]

  -- Where all goes well, each of them is gone.
  delete_disks-AllDeleted :
      (ds : List Name) (t : Trace)
      → (delete_disks answers ds t).0 ≡ ok tt
      → AllDeleted ds (delete_disks answers ds t).1
  unfolding delete_disks tell_disk AllDeleted Past
  delete_disks-AllDeleted [] t = λ h. tt
  delete_disks-AllDeleted (d ∷ ds) t =
      let told : Trace = event "VirtualDiskSnapshotDeleted" ∷ delete_disk d ∷ t in
      let rest = delete_disks-AllDeleted ds told in
      let gone = λ (g : Gone (answers t (delete_disk d))).
        delete_disks-Past (λ r u. (r ≡ delete_disk d) × Gone (answers u r)) ds told
          (inr (inl (refl, g))) in
      elim (Answer-cases (answers t (delete_disk d))) [
        | inl e ↦ rw e (λ h. (gone (inl e), rest h))
        | inr (inl e) ↦ rw e (λ h. (gone (inr e), rest h))
        | inr (inr (inl e)) ↦ rw e (λ h. cc)
        | inr (inr (inr (inl e))) ↦ rw e (λ h. cc)
        | inr (inr (inr (inr e))) ↦ rw e (λ h. cc)
      ]

  delete_snapshot-Cleared :
      (s : VmSnapshot) (t : Trace)
      → (delete_snapshot answers s t).0 ≡ ok tt
      → Cleared s (delete_snapshot answers s t).1
  unfolding delete_snapshot delete_memory tell_memory Cleared MemoryDeleted Past delete_object
  delete_snapshot-Cleared s t = elim (Bool-cases s.skip_memory) [
    | inl e ↦ rw e (λ h. (inl refl, delete_disks-AllDeleted s.disks t h))
    | inr e ↦ rw e (elim (Answer-cases (answers t (delete_object s))) [
      | inl a ↦ rw a (λ h. (
        inr (
            delete_disks-Past (λ r u. (r ≡ delete_object s) × (answers u r ≡ done)) s.disks
              (event "MemorySnapshotDeleted" ∷ delete_object s ∷ t) (inr (inl (refl, a)))),
        delete_disks-AllDeleted s.disks _ h,
      ))
      | inr (inl a) ↦ rw a (λ h. cc)
      | inr (inr (inl a)) ↦ rw a (λ h. cc)
      | inr (inr (inr (inl a))) ↦ rw a (λ h. cc)
      | inr (inr (inr (inr a))) ↦ rw a (λ h. cc)
    ])
  ]

module _ (answers : Trace → Request → Answer) (s : VmSnapshot) where
  -- A program that keeps the rule.
  abbrev Keeping : {A : Type 0} → Program Trace A → Type 0
  Keeping m = Leads (Protects answers s) (Protects answers s) m

  bind-Keeping :
      {A B : Type 0} {m : Program Trace A} {f : A → Program Trace B}
      → Keeping m
      → ((a : A) → Keeping (f a))
      → Keeping (m >>= f)
  bind-Keeping h k = record { led = λ t. (bind-Leads h k (λ u e. e)).led t }

  delete_object-Keeping : Keeping (call answers (delete_object s))
  unfolding delete_object Protects
  delete_object-Keeping = record { led = λ t h. ground arith }

  tell_memory-Keeping : (a : Answer) → Keeping (tell_memory answers a)
  unfolding tell_memory Protects
  tell_memory-Keeping a = record { led = λ t h. ground arith }

  if-Keeping :
      {A : Type 0} {m k : Program Trace A} (b : Bool)
      → Keeping m
      → Keeping k
      → Keeping (if b then m else k)
  if-Keeping true h k = h
  if-Keeping false h k = k

  delete_memory-Keeping : Keeping (delete_memory answers s)
  unfolding delete_memory
  delete_memory-Keeping =
      if-Keeping s.skip_memory (record { led = λ t h. h })
        (bind-Keeping delete_object-Keeping tell_memory-Keeping)

  delete_disk-Keeping : (d : Name) → Keeping (call answers (delete_disk d) >>= tell_disk answers)
  unfolding tell_disk Protects
  delete_disk-Keeping d = record { led = λ t h. ground arith }

  delete_disks-Keeping : (ds : List Name) → Keeping (delete_disks answers ds)
  unfolding delete_disks tell_disk Protects
  delete_disks-Keeping [] = record { led = λ t h. h }
  delete_disks-Keeping (d ∷ ds) = record {
    led = λ t h.
        let left =
          (delete_disks-Keeping ds).led (event "VirtualDiskSnapshotDeleted" ∷ delete_disk d ∷ t)
            h in
        ground arith;
  }

  delete_snapshot-Keeping : Keeping (delete_snapshot answers s)
  unfolding delete_snapshot
  delete_snapshot-Keeping = bind-Keeping delete_memory-Keeping (λ _. delete_disks-Keeping s.disks)

  release-Keeping :
      (r : Result (Unit {0})) (t : Trace)
      → (r ≡ ok tt → Cleared answers s t)
      → Protects answers s t
      → Protects answers s (release answers r t).1
  unfolding release Protects
  release-Keeping (ok tt) t c h = let gone = c refl in ground arith
  release-Keeping (err e) t c h = h
  release-Keeping panicked t c h = h

  reconcile_deleted-Keeping : Keeping (reconcile_deleted answers s)
  unfolding reconcile_deleted
  reconcile_deleted-Keeping = record {
    led = λ t h.
        let left = delete_snapshot answers s t in
        let released =
          release-Keeping left.0 left.1 (delete_snapshot-Cleared answers s t)
            (delete_snapshot-Keeping.led t h) in
        ground arith;
  }

  found_snapshot-Keeping : (a : Answer) → Keeping (found_snapshot answers a s)
  unfolding found_snapshot guarded_or_again reconcile_kept schedule first_phase written_or_again
      Protects
  found_snapshot-Keeping a = record {
    led = λ t h. let deleted = reconcile_deleted-Keeping.led t h in ground arith;
  }

  -- Whatever the server answers, the reconciler of a machine's snapshot keeps the rule that the
  -- finalizer is removed only after a deletion of each disk that found it gone and, unless the
  -- snapshot has no memory, a deletion of the object of the memory that succeeded.
  pub vm_snapshot-reconcile-Protects :
      (t : Trace) → Protects answers s t → Protects answers s (reconcile answers s t).1
  unfolding reconcile Protects
  vm_snapshot-reconcile-Protects t h =
      (found_snapshot-Keeping (answers t get_snapshot)).led (get_snapshot ∷ t) h
