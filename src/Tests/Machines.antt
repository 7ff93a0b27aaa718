-- ===== src/Tests/Machines.antt =====
-- The webhook on concrete input: a quantity is a number of thousandths.
use ch_vmm.Prelude.{
  ℕ, ◌≡◌, ◌≢◌, ◌+◌, ◌*◌, ◌↔◌, refl, sym, inl, inr, String, Bool, true, false, List, [], ◌∷◌, Option,
  none, some, none≢some, str_eq, eq_iff, Bool-cases, ◌==◌, ◌&&◌, arith,
}
use ch_vmm.Api.{
  Hugepages, Disk, Volume, VolumeSource, Network, Interface, InterfaceBindingMethod, Instance,
  VirtualMachine,
}
use ch_vmm.Api.Quantity.{Quantities}
use ch_vmm.Webhook.Field.{Decides}
use ch_vmm.Webhook.Network.{NetParsers, validate_binding_method}
use ch_vmm.Webhook.Machine.{DeepEqual, validate_vm_spec, validate_create, validate_update}
use ch_vmm.Webhook.Machine.Accept.{
  IsVmSpec, IsUnchanged, Decides-IsVmSpec, validate_create_lem, validate_update_lem,
}
use ch_vmm.Webhook.Mutate.{Rand, default_binding, mutate_vm}
use ch_vmm.Webhook.Mutate.Defaults.{HasDefaults, mutate_vm-HasDefaults, default_masquerade_refused}

abbrev pub numbers : Quantities
numbers = record {
  Quantity = ℕ;
  zero_quantity = 0;
  is_zero = λ n. n == 0;
  plus = λ a b. a + b;
  new_quantity = λ n. n * 1000;
  must_parse = λ s. 1024;
  milli_value = λ n. n;
  value = λ n. n;
  parse_count = λ n. n;
  same = λ a b. a == b;
  is_zero-zero_quantity = refl;
  value-parse_count = λ n. refl;
  milli_value-new_quantity = λ n. refl;
}

abbrev net : NetParsers
net = record { parse_mac = λ s. true; parse_cidr = λ s. some (30, 32) }

String-discrete : Discrete String
String-discrete s t = elim (Bool-cases (str_eq s t)) [
  | inl e ↦ yes ((eq_iff s t).0 e)
  | inr e ↦ no (λ p. cc ((eq_iff s t).1 p, e))
]

Hugepages-discrete : Discrete (Option Hugepages)
Hugepages-discrete = hlevel String-discrete

Disks-discrete : Discrete (List Disk)
Disks-discrete = hlevel String-discrete

Volumes-discrete : Discrete (List Volume)
Volumes-discrete = hlevel String-discrete

is_yes : {A : Type 0} → Dec A → Bool
is_yes (yes a) = true
is_yes (no n) = false

is_yes_iff : {A : Type 0} (d : Dec A) → (is_yes d ≡ true) ↔ A
unfolding is_yes
is_yes_iff (yes a) = ((λ h. a), (λ h. refl))
is_yes_iff (no n) = ((λ h. cc), (λ h. absurd (n h)))

first-true : (a b : Bool) → a && b ≡ true → a ≡ true
first-true a b h = ground arith

-- An object is the model's with the other fields of its disks and volumes, which stand as text.
abbrev deep : DeepEqual numbers
deep = record {
  Object = VirtualMachine numbers × String;
  view = λ a. a.0;
  hugepages_equal = λ a b. is_yes (
      Hugepages-discrete a.0.spec.instance_spec.memory.hugepages
        b.0.spec.instance_spec.memory.hugepages);
  disks_equal = λ a b.
      is_yes (Disks-discrete a.0.spec.instance_spec.disks b.0.spec.instance_spec.disks)
      && str_eq a.1 b.1;
  volumes_equal =
      λ a b. is_yes (Volumes-discrete a.0.spec.volumes b.0.spec.volumes) && str_eq a.1 b.1;
  hugepages_equal-hugepages = λ a b.
      (is_yes_iff (
        Hugepages-discrete a.0.spec.instance_spec.memory.hugepages
          b.0.spec.instance_spec.memory.hugepages)).0;
  disks_equal-disks = λ a b h.
      (is_yes_iff (Disks-discrete a.0.spec.instance_spec.disks b.0.spec.instance_spec.disks)).0
        (first-true _ _ h);
  volumes_equal-volumes = λ a b h.
      (is_yes_iff (Volumes-discrete a.0.spec.volumes b.0.spec.volumes)).0 (first-true _ _ h);
}

abbrev source : VolumeSource
source = record {
  container_disk = none;
  cloud_init = none;
  container_rootfs = none;
  persistent_volume_claim = none;
  data_volume = none;
  virtual_disk = some (record { virtual_disk_name = "root" });
  memory_snapshot = none;
}

-- A masquerade whose CIDR is not given.
abbrev binding : InterfaceBindingMethod
binding = record {
  bridge = none;
  masquerade = some (record { cidr = "" });
  sriov = none;
  vdpa = none;
  vhost_user = none;
}

abbrev interface : Interface
interface = record { name = "eth0"; mac = ""; binding = binding }

abbrev network : Network
network = record { name = "pod"; source = record { pod = some tt; multus = none } }

abbrev instance_spec : Instance numbers
instance_spec = record {
  cpu = record { sockets = 0; cores_per_socket = 2; dedicated_cpu_placement = true };
  memory = record { size = 0; hugepages = none };
  kernel = none;
  disks = record { name = "root" } ∷ [];
  file_systems = [];
  interfaces = interface ∷ [];
  gpus = [];
}

abbrev pub vm : VirtualMachine numbers
vm = record {
  namespace = "";
  spec = record {
    run_policy = "";
    instance_spec = instance_spec;
    resources = record { requests = none; limits = none };
    volumes = record { name = "root"; source = source } ∷ [];
    networks = network ∷ [];
  };
}

abbrev rand : Rand
rand k = some (k, 10, 255)

Decides-IsVmSpec_example :
    Decides (validate_vm_spec numbers net vm.spec []) (IsVmSpec numbers net vm.spec)
Decides-IsVmSpec_example = Decides-IsVmSpec numbers net vm.spec []

-- A machine whose disk may be written, and the same to be read only.
abbrev written : deep.Object
written = (vm, "")

abbrev read_only : deep.Object
read_only = (vm, "readOnly")

validate_create_lem_example :
    ((validate_create numbers deep net written).denied ≡ none)
    × (((validate_create numbers deep net written).warnings ≡ []) ↔ IsVmSpec numbers net vm.spec)
validate_create_lem_example = validate_create_lem numbers deep net written

validate_update_lem_example :
    ((validate_update numbers deep net written read_only).denied ≡ none)
    × (((validate_update numbers deep net written read_only).warnings ≡ [])
        ↔ (IsVmSpec numbers net vm.spec × IsUnchanged numbers deep read_only written))
validate_update_lem_example = validate_update_lem numbers deep net written read_only

default_masquerade_refused_example : validate_binding_method net (default_binding binding) [] ≢ []
default_masquerade_refused_example = default_masquerade_refused net binding [] refl refl

once-given : ◌≢◌ {A = String} "Once" ""
once-given h = cc ((eq_iff "Once" "").1 h)

mutate_vm-HasDefaults_example :
    (vm' : VirtualMachine numbers) × (mutate_vm numbers "Once" rand vm none ≡ some vm')
    × HasDefaults numbers vm'
mutate_vm-HasDefaults_example =
    mutate_vm-HasDefaults numbers "Once" rand vm none once-given refl (λ k h. none≢some (sym h))
