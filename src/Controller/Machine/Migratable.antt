-- ===== src/Controller/Machine/Migratable.antt =====
-- Which machines can be migrated.
use ch_vmm.Prelude.{◌≡◌, ◌≢◌, ◌↔◌, ◌⊎◌, false, List, [], ◌∷◌, none, arith, All, eq_iff}
use ch_vmm.Api.{Volume, Interface, Network, FileSystem, VirtualMachineSpec}
use ch_vmm.Api.Quantity.{Quantities}
use ch_vmm.Controller.Machine.{World}
use ch_vmm.Controller.Machine.Conditions.{
  first_of, interface_obstacle, network_obstacle, networks_obstacle, volumes_obstacle,
  files_obstacle, migration_obstacle, migratable_condition,
}

-- An interface that does not tie a machine to its node: it is of another network, or neither a bridge
-- to the pod network nor a device of the node.
pub IsMovableOn : Network → Interface → Type 0
IsMovableOn n i =
    (i.name ≢ n.name)
    ⊎ (((n.source.pod ≡ none) ⊎ (i.binding.bridge ≡ none))
        × (i.binding.sriov ≡ none)
        × (i.binding.vhost_user ≡ none))

-- What a machine needs to be migrated.
pub record IsMigratable {q : Quantities} (s : VirtualMachineSpec q) : Type 0 where
  pub not_dedicated : s.instance_spec.cpu.dedicated_cpu_placement ≡ false
  pub interfaces : All (λ n. All (IsMovableOn n) s.instance_spec.interfaces) s.networks
  pub volumes :
      All (λ v. (v.source.container_rootfs ≡ none) × (v.source.container_disk ≡ none)) s.volumes
  pub no_files : s.instance_spec.file_systems ≡ []

network_obstacle-none_iff :
    (n : Network) (is : List Interface) → (network_obstacle n is ≡ none) ↔ All (IsMovableOn n) is
unfolding network_obstacle interface_obstacle first_of IsMovableOn
network_obstacle-none_iff n [] = ground arith
network_obstacle-none_iff n (i ∷ is) =
    ground (arith, network_obstacle-none_iff n is, eq_iff i.name n.name)

networks_obstacle-none_iff :
    (is : List Interface) (ns : List Network)
    → (networks_obstacle is ns ≡ none) ↔ All (λ n. All (IsMovableOn n) is) ns
unfolding networks_obstacle first_of
networks_obstacle-none_iff is [] = ground arith
networks_obstacle-none_iff is (n ∷ ns) =
    ground (arith, networks_obstacle-none_iff is ns, network_obstacle-none_iff n is)

volumes_obstacle-none_iff :
    (vs : List Volume)
    → (volumes_obstacle vs ≡ none)
      ↔ All (λ v. (v.source.container_rootfs ≡ none) × (v.source.container_disk ≡ none)) vs
unfolding volumes_obstacle
volumes_obstacle-none_iff [] = ground arith
volumes_obstacle-none_iff (v ∷ vs) = ground (arith, volumes_obstacle-none_iff vs)

files_obstacle-none_iff : (fs : List FileSystem) → (files_obstacle fs ≡ none) ↔ (fs ≡ [])
unfolding files_obstacle
files_obstacle-none_iff [] = ground arith
files_obstacle-none_iff (f ∷ fs) = ground arith

module _ {q : Quantities} (s : VirtualMachineSpec q) where
  migration_obstacle-none_iff : (migration_obstacle s ≡ none) ↔ IsMigratable s
  unfolding migration_obstacle first_of
  migration_obstacle-none_iff = (
    (λ h. record {
      not_dedicated = ground arith;
      interfaces = (networks_obstacle-none_iff is s.networks).0 (ground arith);
      volumes = (volumes_obstacle-none_iff s.volumes).0 (ground arith);
      no_files = (files_obstacle-none_iff s.instance_spec.file_systems).0 (ground arith);
    }),
    (λ h.
        let no_network = (networks_obstacle-none_iff is s.networks).1 h.interfaces in
        let no_volume = (volumes_obstacle-none_iff s.volumes).1 h.volumes in
        let no_file = (files_obstacle-none_iff s.instance_spec.file_systems).1 h.no_files in
        rw (h.not_dedicated, no_network, no_volume, no_file)),
  )
    where
      is : List Interface
      is = s.instance_spec.interfaces

  -- The condition that the reconciler sets says "True" exactly for a machine that can be migrated.
  pub migratable_condition_iff :
      (w : World q) → ((migratable_condition w s).status ≡ "True") ↔ IsMigratable s
  unfolding migratable_condition
  migratable_condition_iff w = (
    (λ h. migration_obstacle-none_iff.0 (ground (arith, eq_iff "False" "True"))),
    (λ h. ground (arith, migration_obstacle-none_iff.1 h)),
  )
