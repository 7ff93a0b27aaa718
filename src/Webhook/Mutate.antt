-- ===== src/Webhook/Mutate.antt =====
-- pkg/webhooks/virtualmachine_webhook.go: `MutateVM`, which fills in the defaults of a machine.
pub mod Defaults
use Prim.Native.String.{len, slice, ◌++◌ as str_append}
use text.Mathlib.Text.{find?, starts_with}
use mathlib.Core.Option
use ch_vmm.Prelude.{
  ℕ, zero, suc, ◌+◌, ◌*◌, ◌/◌, ◌%◌, String, Bool, true, false, ◌&&◌, ◌||◌, not, List, [], ◌∷◌, map,
  Option, none, some, if◌then◌else◌, ◌==◌, str_eq, get_or,
}
use ch_vmm.Api.{
  Masquerade, InterfaceBindingMethod, Interface, Hugepages, Gpu, Memory, Instance, ResourceList,
  Resources, VirtualMachineSpec, VirtualMachine, Cpu,
}
use ch_vmm.Api.Quantity.{Quantities}
use ch_vmm.Webhook.Field.{is_blank, is_set}
use ch_vmm.Webhook.Machine.{mul32, quantity_of}

abbrev pub memory_overhead : String
memory_overhead = "256Mi"

abbrev pub default_cidr : String
default_cidr = "10.0.2.0/30"

-- Two hexadecimal digits, as `HardwareAddr.String` prints a byte.
hex_byte : ℕ → String
hex_byte b = str_append (digit (b / 16)) (digit (b % 16))
  where
    digit : ℕ → String
    digit n =
        get_or
          ("0" ∷ "1" ∷ "2" ∷ "3" ∷ "4" ∷ "5" ∷ "6" ∷ "7" ∷ "8" ∷ "9" ∷ "a" ∷ "b" ∷ "c" ∷ "d" ∷ "e"
            ∷ "f" ∷ [])
          n ""

-- The three bytes of the k-th call of `rand.Read`, or none where it fails.
abbrev pub Rand : Type 0
Rand = ℕ → Option (ℕ × ℕ × ℕ)

-- `mac.String()` of the prefix and three random bytes.
mac_text : ℕ → ℕ → ℕ → String
unfolding hex_byte
mac_text a b c = str_append "52:54:00:" (
    str_append (hex_byte a)
      (str_append ":" (str_append (hex_byte b) (str_append ":" (hex_byte c)))))

-- `generateMAC`; none is the error of the random source.
pub generate_mac : Rand → ℕ → Option String
unfolding mac_text
generate_mac rand k = elim (rand k) [ none ↦ none | some (a, b, c) ↦ some (mac_text a b c) ]

trim_prefix : String → String → String
trim_prefix s t = if starts_with s t then slice s (len t) (len s) else s

pub default_gpu : Gpu → Gpu
unfolding trim_prefix
default_gpu g =
    if is_blank g.resource_env_name && is_set (find? g.resource_name "nvidia.com/")
    then record g {
      resource_env_name =
          str_append "PCI_RESOURCE_NVIDIA_COM_" (trim_prefix g.resource_name "nvidia.com/");
    }
    else g

-- The MAC of the first interface of the old machine with that name, or blank.
pub old_mac : String → List Interface → String
old_mac name [] = ""
old_mac name (i ∷ is) = if str_eq i.name name then i.mac else old_mac name is

-- The last part of the loop over the interfaces: the binding method, and the CIDR of a masquerade.
fill_method : InterfaceBindingMethod → InterfaceBindingMethod
fill_method b =
    if is_set b.bridge
      || is_set b.masquerade
      || is_set b.sriov
      || is_set b.vdpa
      || is_set b.vhost_user
    then b
    else record {
      bridge = some tt;
      masquerade = none;
      sriov = none;
      vdpa = none;
      vhost_user = none;
    }

default_masquerade : Masquerade → Masquerade
default_masquerade m = if is_blank m.cidr then record m { cidr = default_cidr } else m

fill_cidr : InterfaceBindingMethod → InterfaceBindingMethod
unfolding default_masquerade
fill_cidr b = record b { masquerade = Option.map default_masquerade b.masquerade }

pub default_binding : InterfaceBindingMethod → InterfaceBindingMethod
unfolding fill_method fill_cidr
default_binding b = fill_cidr (fill_method b)

-- The first part: the MAC, with the number of random reads so far.
pub default_mac : Rand → List Interface → ℕ → Interface → Option (String × ℕ)
unfolding old_mac generate_mac
default_mac rand old k i =
    let kept = old_mac i.name old in
    if not (is_blank i.mac)
    then some (i.mac, k)
    else if not (is_blank kept)
    then some (kept, k)
    else elim (generate_mac rand k) [ none ↦ none | some m ↦ some (m, suc k) ]

-- The loop over the interfaces; none is the error of `generateMAC`.
pub default_interfaces : Rand → List Interface → ℕ → List Interface → Option (List Interface)
unfolding default_mac default_binding
default_interfaces rand old k [] = some []
default_interfaces rand old k (i ∷ is) = elim (default_mac rand old k i) [
  | none ↦ none
  | some (mac, k') ↦
      Option.map (λ rest. record i { mac = mac; binding = default_binding i.binding } ∷ rest)
        (default_interfaces rand old k' is)
]

module _ (q : Quantities) where
  open q use {Quantity, zero_quantity, is_zero, plus, new_quantity, must_parse}

  -- `m[name] = x` on a map that is not nil.
  abbrev pub put : (String → Option Quantity) → String → Quantity → String → Option Quantity
  put m name x = λ other. if str_eq name other then some x else m other

  -- `if rl == nil { rl = corev1.ResourceList{} }`
  abbrev pub made : ResourceList q → String → Option Quantity
  made none = λ name. none
  made (some m) = m

  -- `if m[name].IsZero() { m[name] = x }`, a missing name being zero.
  pub put_if_zero : (String → Option Quantity) → String → Quantity → String → Option Quantity
  put_if_zero m name x = if is_zero (quantity_of q (some m) name) then put m name x else m

  pub default_cpu : Cpu → Cpu
  default_cpu c = record c {
    sockets = if c.sockets == 0 then 1 else c.sockets;
    cores_per_socket = if c.cores_per_socket == 0 then 1 else c.cores_per_socket;
  }

  pub default_size : Memory q → ResourceList q → Quantity
  default_size m requests =
      let requested = quantity_of q requests "memory" in
      if is_zero m.size then (if is_zero requested then must_parse "1Gi" else requested) else m.size

  -- The resources of dedicated CPUs: `rsList`, and its two uses. (Where both maps are nil the two
  -- fields share one map; a later write to it then writes what the other field gets too.)
  pub dedicated_resources : Cpu → Memory q → Resources q → Resources q
  unfolding put_if_zero
  dedicated_resources c m r =
      let mem_size =
        if not (is_zero m.size) && not (is_set m.hugepages)
        then plus (must_parse memory_overhead) m.size
        else must_parse memory_overhead in
      let cpus = new_quantity (mul32 c.cores_per_socket c.sockets) in
      record {
        requests = some (fill cpus mem_size r.requests);
        limits = some (fill cpus mem_size r.limits);
      }
    where
      fill : Quantity → Quantity → ResourceList q → String → Option Quantity
      fill cpus mem_size none = put (put (λ name. none) "cpu" cpus) "memory" mem_size
      fill cpus mem_size (some rl) = put_if_zero (put_if_zero rl "cpu" cpus) "memory" mem_size

  pub hugepages_resources : Hugepages → Quantity → Resources q → Resources q
  hugepages_resources h size r =
      let name = str_append "hugepages-" h.page_size in
      let limit : Quantity = elim (made r.limits name) [ none ↦ size | some x ↦ x ] in
      let limits : String → Option Quantity = put (made r.limits) name limit in
      let requests : String → Option Quantity =
        put (made r.requests) name (elim (made r.requests name) [ none ↦ limit | some x ↦ x ]) in
      let nothing =
        is_zero (quantity_of q (some limits) "cpu")
        && is_zero (quantity_of q (some limits) "memory")
        && is_zero (quantity_of q (some requests) "cpu")
        && is_zero (quantity_of q (some requests) "memory") in
      record {
        requests =
            some (if nothing then put requests "memory" (must_parse memory_overhead) else requests);
        limits = some limits;
      }

  pub shared_resources : Cpu → Quantity → Resources q → Resources q
  unfolding put_if_zero
  shared_resources c size r =
      let cpus = new_quantity (mul32 c.sockets c.cores_per_socket) in
      let mem = plus size (must_parse memory_overhead) in
      record {
        requests = some (put_if_zero (put_if_zero (made r.requests) "cpu" cpus) "memory" mem);
        limits = some (put_if_zero (put_if_zero (made r.limits) "cpu" cpus) "memory" mem);
      }

  -- The resources, through the three parts of the function that set them.
  pub default_resources : Cpu → Memory q → Resources q → Resources q
  unfolding dedicated_resources hugepages_resources shared_resources
  default_resources c m r =
      let base = if c.dedicated_cpu_placement then dedicated_resources c m r else r in
      let paged : Resources q = elim m.hugepages [
        | none ↦ base
        | some h ↦ hugepages_resources h m.size base
      ] in
      if c.dedicated_cpu_placement then paged else shared_resources c m.size paged

  abbrev pub old_interfaces : Option (VirtualMachine q) → List Interface
  old_interfaces none = []
  old_interfaces (some o) = o.spec.instance_spec.interfaces

  -- `MutateVM`; `once` is the API's constant `RunPolicyOnce`.
  pub mutate_vm :
      String → Rand → VirtualMachine q → Option (VirtualMachine q) → Option (VirtualMachine q)
  unfolding default_cpu default_size default_resources default_gpu default_interfaces
  mutate_vm once rand vm old =
      let s = vm.spec in
      let i = s.instance_spec in
      let c = default_cpu i.cpu in
      let m : Memory q = record i.memory { size = default_size i.memory s.resources.requests } in
      Option.map
        (λ interfaces. record vm {
          spec = record s {
            run_policy = if is_blank s.run_policy then once else s.run_policy;
            instance_spec = record i {
              cpu = c;
              memory = m;
              gpus = map default_gpu i.gpus;
              interfaces = interfaces;
            };
            resources = default_resources c m s.resources;
          };
        })
        (default_interfaces rand (old_interfaces old) 0 i.interfaces)

  -- The webhook's `Default`.
  pub default_vm : String → Rand → VirtualMachine q → Option (VirtualMachine q)
  unfolding mutate_vm
  default_vm once rand vm =
      mutate_vm once rand
        (record vm { namespace = if is_blank vm.namespace then "default" else vm.namespace }) none
