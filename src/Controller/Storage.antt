-- ===== src/Controller/Storage.antt =====
-- internal/controller: what the reconcilers of disks and of disk snapshots have in common. Each of
-- their objects has one child, a `DataVolume` or a `VolumeSnapshot`, of the object's own name, and a
-- finalizer that keeps the object until the child is deleted.
pub mod Disk
pub mod Snapshot
pub mod Guards
use ch_vmm.Prelude.{String, Bool, true, List, ◌∷◌, Option, none, some, if◌then◌else◌}
use ch_vmm.Controller.Names.{Name}
use ch_vmm.Controller.Program.{
  Answer, done, not_found, already_exists, conflict, failed, ok, Program, ◌>>=◌, ◌>>◌, return, fail,
  must, must_or_missing,
}
use ch_vmm.Controller.Shrink.{Requeue}

-- The requests, where `C` is what a reconciler creates and `T` the status that it writes. An event
-- is told by its reason.
pub data Request (C T : Type 0) : Type 0 where
  get_object add_finalizer remove_finalizer : Request C T
  get_child delete_child : Name → Request C T
  create_child : C → Request C T
  update_status : T → Request C T
  event : String → Request C T

abbrev pub Trace : Type 0 → Type 0 → Type 0
Trace C T = List (Request C T)

-- The API server; `X` is what a reconciler reads of a child, and `owned` is the answer of
-- `SetControllerReference`, which sends no request.
pub record Server (C T X : Type 0) : Type 0 where
  pub answer : Trace C T → Request C T → Answer
  pub owned : Name → Answer
  pub child : Trace C T → X

-- What they read of an object's metadata.
pub record Meta : Type 0 where
  pub name : Name
  pub labels : List (Name × Name)
  pub deleting : Bool
  pub guarded : Bool

module _ {C T X : Type 0} (server : Server C T X) where
  abbrev pub M : Type 0 → Type 0
  M A = Program (Trace C T) A

  abbrev pub call : Request C T → M Answer
  call r t = (ok (server.answer t r), r ∷ t)

  abbrev pub record_event : String → M (Unit {0})
  record_event reason t = (ok tt, event reason ∷ t)

  -- The rest of `createDataVolume` and `createVolumeSnapshot`, behind the construction of the child:
  -- `SetControllerReference`, and `Create` unless it fails.
  pub create_if_owned : Answer → C → M Answer
  create_if_owned done child = call (create_child child)
  create_if_owned e child = return e

  pub create_owned : Name → C → M Answer
  unfolding create_if_owned
  create_owned name child = create_if_owned (server.owned name) child

  -- The event for a child that is now deleted; none if it was gone before.
  abbrev pub tell_deleted : Answer → String → M (Unit {0})
  tell_deleted done reason = record_event reason
  tell_deleted e reason = return tt

  pub handle_deletion : Meta → String → M Requeue
  handle_deletion object reason = do
    deleted ← call (delete_child object.name)
    must_or_missing deleted
    tell_deleted deleted reason
    if object.guarded
        then (do updated ← call remove_finalizer; must updated; return 0)
        else return 0

  -- The rest of `Reconcile` behind the answer to `Get`, with what is done for an object that stays.
  pub dispatch : Answer → Option Meta → String → M Requeue → M Requeue
  unfolding handle_deletion
  dispatch done (some object) reason work =
      if object.deleting
      then handle_deletion object reason
      else if object.guarded
      then work
      else (do updated ← call add_finalizer; must updated; return 0)
  dispatch done none reason work = return 0
  dispatch not_found found reason work = return 0
  dispatch already_exists found reason work = fail already_exists
  dispatch conflict found reason work = fail conflict
  dispatch failed found reason work = fail failed
