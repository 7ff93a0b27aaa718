-- ===== src/Controller/Client.antt =====
-- The Kubernetes client of the reconcilers. The API server is not part of the repository: a
-- reconciler is a program that sends requests, and the server's answers are a parameter, which may
-- depend on all that was asked before.
use ch_vmm.Prelude.{ℕ, String, List, ◌∷◌, Option}
use ch_vmm.Controller.Names.{Name}
use ch_vmm.Controller.Program.{Answer, ok, Program}

abbrev pub Labels : Type 0
Labels = List (Name × Name)

-- A volume of a machine, by the one field that the controllers change.
pub record VolumeRef : Type 0 where
  pub volume : Name
  pub virtual_disk : Option Name

-- A machine or a disk to be created, with the kind and name of its controller.
pub record VmObject : Type 0 where
  pub name : Name
  pub labels : Labels
  pub volumes : List VolumeRef
  pub owner : Name

pub record DiskObject : Type 0 where
  pub name : Name
  pub labels : Labels
  pub annotations : Labels
  pub owner : Name

-- What the controllers read of a listed machine and of a listed disk.
pub record Vm : Type 0 where
  pub name : Name
  pub phase : String

-- An owner reference, and a listed disk with that of its controller.
pub record OwnerRef : Type 0 where
  pub api_version : String
  pub kind : String
  pub name : Name

pub record ListedDisk : Type 0 where
  pub name : Name
  pub controller : Option OwnerRef

pub record Status : Type 0 where
  pub replicas : ℕ
  pub ready_replicas : ℕ
  pub available_replicas : ℕ

pub data Request : Type 0 where
  get_set : Request
  get_vm delete_vm get_disk delete_disk : Name → Request
  create_vm : VmObject → Request
  create_disk : DiskObject → Request
  list_vms list_disks : Request
  add_finalizer remove_finalizer : Request
  update_status : Status → Request

-- All requests so far, the newest first.
abbrev pub Trace : Type 0
Trace = List Request

abbrev pub M : Type 0 → Type 0
M A = Program Trace A

pub record Server : Type 0 where
  pub answer : Trace → Request → Answer
  -- `SetControllerReference`, which sends no request.
  pub owned : Name → Answer
  pub listed_vms : Trace → List Vm
  pub listed_disks : Trace → List ListedDisk

module _ (server : Server) where
  -- A call and its answer.
  abbrev pub call : Request → M Answer
  call r t = (ok (server.answer t r), r ∷ t)
