-- ===== src/Webhook/Machine.antt =====
-- pkg/webhooks/virtualmachine_webhook.go: the checks of a machine, and the webhook's answers.
pub mod Accept
use ch_vmm.Prelude.{
  ℕ, ◌*◌, ◌%◌, ◌^◌, ◌<◌, String, ◌≡◌, refl, ◌≢◌, ◌↔◌, Bool, true, false, ◌&&◌, ◌||◌, not, List, [],
  ◌∷◌, ◌++◌, Option, none, some, arith, if◌then◌else◌, ◌==◌, ltb, map, All, Bool-cases, inl, inr,
}
use ch_vmm.Api.{
  Resources, ResourceList, Volume, Network, VirtualMachineSpec, VirtualMachine, Disk, Hugepages,
}
use ch_vmm.Api.Quantity.{Quantities}
use ch_vmm.Webhook.Field.{
  FieldPath, child, required, invalid, forbidden, ErrorList, error, is_blank, is_set, when, join,
  each, Decides, Decides-when, Decides-blank, Decides-append, Decides-nil, Decides-each,
  Decides-iff,
}
use ch_vmm.Webhook.Volume.{validate_volume, IsVolume, Decides-volume}
use ch_vmm.Webhook.Network.{NetParsers, validate_network, IsNetwork, Decides-network}
use ch_vmm.Webhook.Instance.{validate_instance, IsInstance, Decides-instance}

-- A 32-bit product.
abbrev pub mul32 : ℕ → ℕ → ℕ
mul32 a b = a * b % 2 ^ 32

-- `reflect.DeepEqual` on the parts that an update may not change, and the objects that it sees: Go's, with
-- the fields that this model leaves out, and with a nil slice told from an empty one.
pub record DeepEqual (q : Quantities) : Type 1 where
  pub Object : Type 0
  -- What the other checks read of an object.
  pub view : Object → VirtualMachine q
  pub hugepages_equal : Object → Object → Bool
  pub disks_equal : Object → Object → Bool
  pub volumes_equal : Object → Object → Bool
  -- What is deeply equal is equal as far as the model goes.
  pub hugepages_equal-hugepages :
      (a b : Object)
      → hugepages_equal a b ≡ true
      → (view a).spec.instance_spec.memory.hugepages ≡ (view b).spec.instance_spec.memory.hugepages
  pub disks_equal-disks :
      (a b : Object)
      → disks_equal a b ≡ true
      → (view a).spec.instance_spec.disks ≡ (view b).spec.instance_spec.disks
  pub volumes_equal-volumes :
      (a b : Object) → volumes_equal a b ≡ true → (view a).spec.volumes ≡ (view b).spec.volumes

-- What an admission validator returns: the warnings, and the error if it denies the request.
pub record Verdict : Type 0 where
  pub warnings : List String
  pub denied : Option String

-- The end of `ValidateCreate` and `ValidateUpdate`.
pub verdict_of : ErrorList → Verdict
verdict_of errs = record { warnings = map (λ e. e.detail) errs; denied = none }

module _ (q : Quantities) where
  open q use {Quantity, zero_quantity, is_zero, milli_value, same}

  -- `rl.Cpu()`, `rl.Memory()`: the zero quantity where the name is missing.
  unfoldable pub quantity_of : ResourceList q → String → Quantity
  quantity_of none name = zero_quantity
  quantity_of (some m) name = elim (m name) [ none ↦ zero_quantity | some x ↦ x ]

  pub validate_dedicated_cpu : VirtualMachineSpec q → FieldPath → ErrorList
  unfolding quantity_of
  validate_dedicated_cpu s p =
      let cpu = s.instance_spec.cpu in
      let cpu_total : ℕ = mul32 cpu.sockets cpu.cores_per_socket in
      let requested = quantity_of s.resources.requests "cpu" in
      let at = child "cpu" ∷ child "requests" ∷ child "resources" ∷ p in
      if cpu.dedicated_cpu_placement && ltb 1 cpu_total
      then (if not (is_set s.resources.requests) || is_zero requested
          then error required at "cpu requests must be set when dedicatedCPUPlacement is true" ∷ []
          else when (not (milli_value requested == mul32 cpu_total 1000))
              (error invalid at "cpu requests must match the total CPU count"))
      else []

  pub validate_vm_spec : NetParsers → VirtualMachineSpec q → FieldPath → ErrorList
  validate_vm_spec net s p =
      let i = s.instance_spec in
      let at = child "instance" ∷ p in
      join (
        when (i.cpu.sockets == 0)
          (error required (child "sockets" ∷ child "cpu" ∷ at) "sockets must be greater than 0")
        ∷ when (i.cpu.cores_per_socket == 0) (
            error required (child "coresPerSocket" ∷ child "cpu" ∷ at)
              "coresPerSocket must be greater than 0")
        ∷ when (is_zero i.memory.size) (
            error required (child "size" ∷ child "memory" ∷ at)
              "memory size must be greater than 0")
        ∷ when (is_blank s.run_policy)
            (error required (child "runPolicy" ∷ p) "runPolicy must be set")
        ∷ when (i.cpu.dedicated_cpu_placement && not (is_set i.memory.hugepages)) (
            error required (child "hugepages" ∷ child "memory" ∷ at)
              "hugepages must be set when dedicatedCPUPlacement is true")
        ∷ validate_dedicated_cpu s p
        ∷ validate_instance q net i at
        ∷ each validate_volume (child "volumes" ∷ p) 0 s.volumes
        ∷ each validate_network (child "networks" ∷ p) 0 s.networks
        ∷ [])

  module _ (deep : DeepEqual q) where
    open deep use {Object, view}

    pub validate_vm_update : Object → Object → ErrorList
    validate_vm_update vm old =
        let i = (view vm).spec.instance_spec in
        let j = (view old).spec.instance_spec in
        let spec = child "spec" ∷ [] in
        let at = child "instance" ∷ spec in
        join (
          when (not (i.cpu.sockets == j.cpu.sockets))
            (error forbidden (child "sockets" ∷ child "cpu" ∷ at) "CPU sockets cannot be changed")
          ∷ when (not (i.cpu.cores_per_socket == j.cpu.cores_per_socket)) (
              error forbidden (child "coresPerSocket" ∷ child "cpu" ∷ at)
                "CPU cores per socket cannot be changed")
          ∷ when (not (same i.memory.size j.memory.size))
              (error forbidden (child "size" ∷ child "memory" ∷ at) "memory size cannot be changed")
          ∷ when (not (deep.hugepages_equal vm old)) (
              error forbidden (child "hugepages" ∷ child "memory" ∷ at)
                "hugepages configuration cannot be changed")
          ∷ when (not (deep.disks_equal vm old))
              (error forbidden (child "disks" ∷ at) "disks cannot be changed")
          ∷ when (not (deep.volumes_equal vm old))
              (error forbidden (child "volumes" ∷ spec) "volumes cannot be changed")
          ∷ [])

    pub validate_vm : NetParsers → Object → Option Object → ErrorList
    unfolding validate_vm_spec validate_vm_update
    validate_vm net vm none = validate_vm_spec net (view vm).spec (child "spec" ∷ []) ++ []
    validate_vm net vm (some old) =
        validate_vm_spec net (view vm).spec (child "spec" ∷ []) ++ validate_vm_update vm old

    pub validate_create : NetParsers → Object → Verdict
    unfolding validate_vm verdict_of
    validate_create net vm = verdict_of (validate_vm net vm none)

    pub validate_update : NetParsers → Object → Object → Verdict
    unfolding validate_vm verdict_of
    validate_update net old new = verdict_of (validate_vm net new (some old))

    pub validate_delete : Object → Verdict
    validate_delete vm = record { warnings = []; denied = none }
