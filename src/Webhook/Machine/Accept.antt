-- ===== src/Webhook/Machine/Accept.antt =====
-- pkg/webhooks/virtualmachine_webhook.go: what the validators accept, and what the webhook answers.
use ch_vmm.Prelude.{
  ℕ, ◌≤◌, ◌⊎◌, ◌≡◌, refl, ◌≢◌, ◌↔◌, Bool, true, false, ◌&&◌, not, [], ◌∷◌, none, arith, ◌==◌, map,
  All,
}
use ch_vmm.Api.{VirtualMachineSpec}
use ch_vmm.Api.Quantity.{Quantities}
use ch_vmm.Webhook.Field.{
  FieldPath, child, Error, ErrorList, is_set, when, Decides, Decides-when, Decides-blank,
  Decides-append, Decides-nil, Decides-each, Decides-iff,
}
use ch_vmm.Webhook.Volume.{validate_volume, IsVolume, Decides-volume}
use ch_vmm.Webhook.Network.{NetParsers, validate_network, IsNetwork, Decides-network}
use ch_vmm.Webhook.Instance.{IsInstance, Decides-instance, Decides-positive}
use ch_vmm.Webhook.Machine.{
  mul32, DeepEqual, quantity_of, validate_dedicated_cpu, validate_vm_spec, validate_vm_update,
  validate_create, validate_update,
}

module _ (q : Quantities) where
  open q use {Quantity, is_zero, milli_value, same}

  -- With dedicated CPUs and more than one of them, the CPU request is the number of CPUs.
  abbrev pub IsDedicated : VirtualMachineSpec q → Type 0
  IsDedicated s =
      let cpu = s.instance_spec.cpu in
      (cpu.dedicated_cpu_placement ≡ false)
      ⊎ (mul32 cpu.sockets cpu.cores_per_socket ≤ 1)
      ⊎ ((is_set s.resources.requests ≡ true)
          × (is_zero (quantity_of q s.resources.requests "cpu") ≡ false)
          × (milli_value (quantity_of q s.resources.requests "cpu")
              ≡ mul32 (mul32 cpu.sockets cpu.cores_per_socket) 1000))

  pub record IsVmSpec (net : NetParsers) (s : VirtualMachineSpec q) : Type 0 where
    pub run_policy : s.run_policy ≢ ""
    pub hugepages :
        (s.instance_spec.cpu.dedicated_cpu_placement ≡ false)
        ⊎ (is_set s.instance_spec.memory.hugepages ≡ true)
    pub dedicated : IsDedicated s
    pub instance_spec : IsInstance q net s.instance_spec
    pub volumes : All IsVolume s.volumes
    pub networks : All IsNetwork s.networks

  Decides-IsDedicated :
      (s : VirtualMachineSpec q) (p : FieldPath)
      → Decides (validate_dedicated_cpu q s p) (IsDedicated s)
  unfolding validate_dedicated_cpu
  Decides-IsDedicated s p = ground arith

  Decides-pages :
      (a b : Bool) (e : Error) → Decides (when (a && not b) e) ((a ≡ false) ⊎ (b ≡ true))
  Decides-pages a b e = ground arith

  -- The checks of a machine's specification pass exactly for a well-formed one.
  pub Decides-IsVmSpec :
      (net : NetParsers) (s : VirtualMachineSpec q) (p : FieldPath)
      → Decides (validate_vm_spec q net s p) (IsVmSpec net s)
  unfolding validate_vm_spec
  Decides-IsVmSpec net s p =
      let i = s.instance_spec in
      Decides-iff
        (Decides-append (Decides-positive i.cpu.sockets _) (
          Decides-append (Decides-positive i.cpu.cores_per_socket _) (
            Decides-append (Decides-when (is_zero i.memory.size) _) (
              Decides-append (Decides-blank s.run_policy _) (
                Decides-append
                  (Decides-pages i.cpu.dedicated_cpu_placement (is_set i.memory.hugepages) _)
                  (Decides-append (Decides-IsDedicated s p) (
                    Decides-append (Decides-instance q net i _) (
                      Decides-append
                        (Decides-each validate_volume (child "volumes" ∷ p) 0 s.volumes
                          Decides-volume)
                        (Decides-append
                          (Decides-each validate_network (child "networks" ∷ p) 0 s.networks
                            Decides-network)
                          Decides-nil)))))))))
        (
          (λ h. record {
            run_policy = h.1.1.1.0;
            hugepages = h.1.1.1.1.0;
            dedicated = h.1.1.1.1.1.0;
            instance_spec = h.1.1.1.1.1.1.0;
            volumes = h.1.1.1.1.1.1.1.0;
            networks = h.1.1.1.1.1.1.1.1.0;
          }),
          (λ v. (
            v.instance_spec.cpu.sockets,
            (
              v.instance_spec.cpu.cores_per_socket,
              (
                v.instance_spec.memory,
                (
                  v.run_policy,
                  (v.hugepages, (v.dedicated, (v.instance_spec, (v.volumes, (v.networks, tt))))),
                ),
              ),
            ),
          )),
        )

  -- The parts that an update may not change. Hugepages, disks and volumes are compared deeply, with
  -- all their fields.
  pub record IsUnchanged (deep : DeepEqual q) (vm old : deep.Object) : Type 0 where
    pub sockets :
        (deep.view vm).spec.instance_spec.cpu.sockets
        ≡ (deep.view old).spec.instance_spec.cpu.sockets
    pub cores_per_socket :
        (deep.view vm).spec.instance_spec.cpu.cores_per_socket
        ≡ (deep.view old).spec.instance_spec.cpu.cores_per_socket
    pub memory :
        same
          (deep.view vm).spec.instance_spec.memory.size
          (deep.view old).spec.instance_spec.memory.size
        ≡ true
    pub hugepages :
        (deep.hugepages_equal vm old ≡ true)
        × ((deep.view vm).spec.instance_spec.memory.hugepages
            ≡ (deep.view old).spec.instance_spec.memory.hugepages)
    pub disks :
        (deep.disks_equal vm old ≡ true)
        × ((deep.view vm).spec.instance_spec.disks ≡ (deep.view old).spec.instance_spec.disks)
    pub volumes :
        (deep.volumes_equal vm old ≡ true)
        × ((deep.view vm).spec.volumes ≡ (deep.view old).spec.volumes)

  Decides-same : (a b : ℕ) (e : Error) → Decides (when (not (a == b)) e) (a ≡ b)
  Decides-same a b e = ground arith

  Decides-test : (b : Bool) (e : Error) → Decides (when (not b) e) (b ≡ true)
  Decides-test b e = ground arith

  -- The checks of an update pass exactly if no immutable part has changed.
  pub Decides-vm_update :
      (deep : DeepEqual q) (vm old : deep.Object)
      → Decides (validate_vm_update q deep vm old) (IsUnchanged deep vm old)
  unfolding validate_vm_update
  Decides-vm_update deep vm old =
      let i = (deep.view vm).spec.instance_spec in
      let j = (deep.view old).spec.instance_spec in
      Decides-iff
        (Decides-append (Decides-same i.cpu.sockets j.cpu.sockets _) (
          Decides-append (Decides-same i.cpu.cores_per_socket j.cpu.cores_per_socket _) (
            Decides-append (Decides-test (same i.memory.size j.memory.size) _) (
              Decides-append (Decides-test (deep.hugepages_equal vm old) _) (
                Decides-append (Decides-test (deep.disks_equal vm old) _)
                  (Decides-append (Decides-test (deep.volumes_equal vm old) _) Decides-nil))))))
        (
          (λ h. record {
            sockets = h.0;
            cores_per_socket = h.1.0;
            memory = h.1.1.0;
            hugepages = (h.1.1.1.0, deep.hugepages_equal-hugepages vm old h.1.1.1.0);
            disks = (h.1.1.1.1.0, deep.disks_equal-disks vm old h.1.1.1.1.0);
            volumes = (h.1.1.1.1.1.0, deep.volumes_equal-volumes vm old h.1.1.1.1.1.0);
          }),
          (λ v. (
            v.sockets,
            (v.cores_per_socket, (v.memory, (v.hugepages.0, (v.disks.0, (v.volumes.0, tt))))),
          )),
        )

  map-nil_iff : (errs : ErrorList) → (map (λ (e : Error). e.detail) errs ≡ []) ↔ (errs ≡ [])
  map-nil_iff [] = ((λ h. refl), (λ h. refl))
  map-nil_iff (e ∷ errs) = ((λ h. cc), (λ h. cc))

  -- `ValidateCreate` denies no machine at all. Its answer has no warning exactly if the machine's
  -- specification is well formed.
  pub validate_create_lem :
      (deep : DeepEqual q) (net : NetParsers) (vm : deep.Object)
      → ((validate_create q deep net vm).denied ≡ none)
        × (((validate_create q deep net vm).warnings ≡ []) ↔ IsVmSpec net (deep.view vm).spec)
  unfolding validate_create
  validate_create_lem deep net vm =
      let checks =
        Decides-append (Decides-IsVmSpec net (deep.view vm).spec (child "spec" ∷ [])) Decides-nil in
      (
        refl,
        ((λ h. (checks.0 ((map-nil_iff _).0 h)).0), (λ v. (map-nil_iff _).1 (checks.1 (v, tt)))),
      )

  -- `ValidateUpdate` denies no update at all. Its answer has no warning exactly if the new machine's
  -- specification is well formed, sockets, cores and memory size are the old ones, and
  -- `reflect.DeepEqual` finds hugepages, disks and volumes equal, which then are the same.
  pub validate_update_lem :
      (deep : DeepEqual q) (net : NetParsers) (old new : deep.Object)
      → ((validate_update q deep net old new).denied ≡ none)
        × (((validate_update q deep net old new).warnings ≡ [])
            ↔ (IsVmSpec net (deep.view new).spec × IsUnchanged deep new old))
  unfolding validate_update
  validate_update_lem deep net old new =
      let checks =
        Decides-append (Decides-IsVmSpec net (deep.view new).spec (child "spec" ∷ []))
          (Decides-vm_update deep new old) in
      (refl, ((λ h. checks.0 ((map-nil_iff _).0 h)), (λ v. (map-nil_iff _).1 (checks.1 v))))
