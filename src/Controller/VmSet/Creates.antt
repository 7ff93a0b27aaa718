-- ===== src/Controller/VmSet/Creates.antt =====
-- Which machines the reconciler of a VMSet creates.
use ch_vmm.Controller.Program.{
  Answer, done, not_found, already_exists, conflict, failed, Result, ok, err, panicked, bind,
  present, ◌>>=◌, ◌>>◌, return, item_at, must, must_or_exists,
}
use ch_vmm.Prelude.{
  ℕ, zero, suc, ◌+◌, ◌-◌, get_elem?, ◌≡◌, refl, Bool, true, false, List, [], ◌∷◌, Option, none,
  some, if◌then◌else◌, ltb, length, arith,
}
use ch_vmm.Controller.Names.{Name, ordinal_name, get_ordinal}
use ch_vmm.Controller.Client.{
  Vm, get_vm, list_vms, create_vm, delete_vm, get_disk, delete_disk, create_disk, Trace, M, Server,
  call,
}
use ch_vmm.Controller.Shrink.{Requeue, shrink, shrink_from}
use ch_vmm.Controller.VmSet.{
  DiskTemplate, VmSet, disk_name, new_disk, construct_vm, sort_vms, insert_vm, create_disks,
  delete_disks, scale_up, create_one, remove_vm, scale_down,
}

-- What a program does behind another that keeps `Q`, of which `P` follows.
pub bind-Kept :
    {A B : Type 0} (Q P : Trace → Type 0) (r : Result A × Trace) (f : A → M B)
    → Q r.1
    → ((t : Trace) → Q t → P t)
    → ((a : A) (t : Trace) → Q t → P (f a t).1)
    → P (bind r f).1
bind-Kept Q P (ok a, t) f h weaken k = k a t h
bind-Kept Q P (err e, t) f h weaken k = weaken t h
bind-Kept Q P (panicked, t) f h weaken k = weaken t h

module _ (server : Server) (set : VmSet) where
  -- The number of machines that the last list had.
  unfoldable pub counted : Trace → ℕ
  counted [] = 0
  counted (list_vms ∷ t) = length (server.listed_vms t)
  counted (r ∷ t) = counted t

  -- The last request for a machine, since one was created, was for that of the name, and found none.
  unfoldable pub Absent : Name → Trace → Type 0
  Absent name [] = ⊥
  Absent name (get_vm n ∷ t) = (n ≡ name) × (server.answer t (get_vm n) ≡ not_found)
  Absent name (create_vm v ∷ t) = ⊥
  Absent name (r ∷ t) = Absent name t

  -- Each machine that was created has the number of the machines as its ordinal, and was absent.
  unfoldable pub Creates : Trace → Type 0
  unfolding counted Absent
  Creates [] = Unit {0}
  Creates (create_vm v ∷ t) =
      (v.name ≡ ordinal_name set.name (counted t)) × Absent v.name t × Creates t
  Creates (r ∷ t) = Creates t

  delete_disks-Creates :
      (o : ℕ) (ds : List DiskTemplate) (t : Trace)
      → Creates t
      → Creates (delete_disks server set o ds t).1
  unfolding delete_disks Creates
  delete_disks-Creates o [] t h = h
  delete_disks-Creates o (d ∷ ds) t h =
      ground (arith, h, delete_disks-Creates o ds (delete_disk (disk_name set.name d.name o) ∷ t) h)

  pub remove_vm-Creates :
      (b : Bool) (v : Vm) (t : Trace) → Creates t → Creates (remove_vm server set b v t).1
  unfolding remove_vm Creates
  remove_vm-Creates b v t h = ground (
    arith,
    h,
    delete_disks-Creates (get_ordinal v.name) set.disk_templates (delete_vm v.name ∷ t) h,
  )

  -- What the creation of the disks keeps.
  abbrev Prepared : ℕ → Trace → Type 0
  Prepared n t = (counted t ≡ n) × Absent (ordinal_name set.name n) t × Creates t

  create_disks-Prepared :
      (n : ℕ) (ds : List DiskTemplate) (t : Trace)
      → Prepared n t
      → Prepared n (create_disks server set n ds t).1
  unfolding create_disks Creates counted Absent
  create_disks-Prepared n [] t h = h
  create_disks-Prepared n (d ∷ ds) t h =
      let asked : Trace = get_disk (disk_name set.name d.name n) ∷ t in
      ground (
        arith,
        h,
        create_disks-Prepared n ds asked h,
        create_disks-Prepared n ds (create_disk (new_disk set d n) ∷ asked) h,
      )

  created-Creates :
      (n : ℕ) (t : Trace)
      → Prepared n t
      → Creates
          ((do
            must (server.owned (ordinal_name set.name n))
            created ← call server (create_vm (construct_vm set n))
            must_or_exists created
            return {A = Requeue} 5)
            t).1
  unfolding construct_vm Creates counted Absent
  created-Creates n t h = ground (arith, h)

  create_one-Creates : (n : ℕ) (t : Trace) → Prepared n t → Creates (create_one server set n t).1
  unfolding create_one
  create_one-Creates n t h =
      bind-Kept (Prepared n) Creates (create_disks server set n set.disk_templates t) _
        (create_disks-Prepared n set.disk_templates t h) (λ t' h'. h'.2) (λ _. created-Creates n)

  length-insert_vm : (v : Vm) (vs : List Vm) → length (insert_vm v vs) ≡ suc (length vs)
  unfolding insert_vm
  length-insert_vm v [] = refl
  length-insert_vm v (w ∷ vs) = ground (arith, length-insert_vm v vs)

  pub length-sort_vms : (vs : List Vm) → length (sort_vms vs) ≡ length vs
  unfolding sort_vms
  length-sort_vms [] = refl
  length-sort_vms (v ∷ vs) = omega (arith, length-insert_vm v (sort_vms vs), length-sort_vms vs)

  looked_up-Creates :
      (n : ℕ) (a : Answer) (t : Trace)
      → server.answer t (get_vm (ordinal_name set.name n)) ≡ a
      → counted t ≡ n
      → Creates t
      → Creates
          ((do
            exists ← present a
            if exists then return {A = Requeue} 5 else create_one server set n)
            (get_vm (ordinal_name set.name n) ∷ t)).1
  unfolding Creates counted Absent
  looked_up-Creates n done t e c h = h
  looked_up-Creates n not_found t e c h =
      create_one-Creates n (get_vm (ordinal_name set.name n) ∷ t) (c, (refl, e), h)
  looked_up-Creates n already_exists t e c h = h
  looked_up-Creates n conflict t e c h = h
  looked_up-Creates n failed t e c h = h

  pub scale_up-Creates :
      (vs : List Vm) (t : Trace)
      → counted t ≡ length vs
      → Creates t
      → Creates (scale_up server set vs t).1
  unfolding scale_up
  scale_up-Creates vs t = looked_up-Creates (length vs) _ t refl

  item-Creates : (vs : List Vm) (i : ℕ) (t : Trace) → Creates t → Creates (item_at vs i t).1
  item-Creates vs i t h = by_item (get_elem? vs i)
    where
      by_item :
          (o : Option Vm)
          → Creates
              (elim o as (λ o. Result Vm × Trace) [ none ↦ (panicked, t) | some x ↦ (ok x, t) ]).1
      by_item none = h
      by_item (some x) = h

  shrink_from-Creates :
      (b : Bool) (vs : List Vm) (i rounds : ℕ) (t : Trace)
      → Creates t
      → Creates (shrink_from (remove_vm server set b) vs i rounds t).1
  unfolding shrink_from
  shrink_from-Creates b vs i zero t h = h
  shrink_from-Creates b vs i (suc rounds) t h =
      let picked : M Vm =
        (if ltb i (length vs) then item_at vs (length vs - 1 - i) else item_at [] 0) in
      bind-Kept Creates Creates (picked t) _ (by_test (ltb i (length vs))) (λ t' h'. h')
        (λ v t' h'.
          bind-Kept Creates Creates (remove_vm server set b v t') _ (remove_vm-Creates b v t' h')
            (λ t'' k. k) (λ _. shrink_from-Creates b vs (i + 1) rounds))
    where
      by_test :
          (c : Bool) → Creates ((if c then item_at vs (length vs - 1 - i) else item_at [] 0) t).1
      by_test true = item-Creates vs (length vs - 1 - i) t h
      by_test false = item-Creates [] 0 t h

  pub scale_down-Creates :
      (vs : List Vm) (desired : ℕ) (t : Trace)
      → Creates t
      → Creates (scale_down server set vs desired t).1
  unfolding scale_down shrink
  scale_down-Creates vs desired t h =
      bind-Kept Creates Creates (shrink_from _ vs 0 _ t) _ (shrink_from-Creates _ vs 0 _ t h)
        (λ t' k. k) (λ _ t' k. k)
