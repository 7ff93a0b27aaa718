-- ===== src/Controller/Machine/Settles.antt =====
-- Whether the resize of a pod comes to an end.
use ch_vmm.Prelude.{ℕ, ◌*◌, ◌%◌, ◌^◌, ◌≡◌, refl, ◌≢◌, ◌↔◌, true, false, arith}
use ch_vmm.Api.{VirtualMachineSpec, Resources}
use ch_vmm.Api.Quantity.{Quantities}
use ch_vmm.Webhook.Machine.{quantity_of, mul32}
use ch_vmm.Controller.Machine.Resize.{
  differs, desired_cpu, desired_memory, needs_resize, put_quantity, desired_resources,
}

-- Two laws of `Quantity`: `Equal` is reflexive, and the quantity of a number is zero for zero only.
pub record CountLaws (q : Quantities) : Type 0 where
  pub same-refl : (a : q.Quantity) → q.same a a ≡ true
  pub is_zero-new_quantity_iff : (n : ℕ) → (q.is_zero (q.new_quantity n) ≡ true) ↔ (n ≡ 0)

module _ (q : Quantities) (laws : CountLaws q) (s : VirtualMachineSpec q) (r : Resources q) where
  desired_of_cpu : quantity_of q (desired_resources s r).requests "cpu" ≡ desired_cpu s
  unfolding desired_resources put_quantity quantity_of
  desired_of_cpu = refl

  desired_of_memory : quantity_of q (desired_resources s r).requests "memory" ≡ desired_memory s
  unfolding desired_resources put_quantity quantity_of
  desired_of_memory = refl

  zero_cpu_iff :
      (q.is_zero (desired_cpu s) ≡ true)
      ↔ (s.instance_spec.cpu.sockets * s.instance_spec.cpu.cores_per_socket % 2 ^ 32 ≡ 0)
  unfolding desired_cpu
  zero_cpu_iff =
      laws.is_zero-new_quantity_iff
        (mul32 s.instance_spec.cpu.sockets s.instance_spec.cpu.cores_per_socket)

  -- A pod that has what the reconciler asks for, when its memory is not zero, needs no further resize
  -- exactly if the number of CPUs, as a 32-bit word, is not zero.
  pub desired-settles_iff :
      q.is_zero (desired_memory s) ≡ false
      → (needs_resize s (desired_resources s r) ≡ false)
        ↔ (s.instance_spec.cpu.sockets * s.instance_spec.cpu.cores_per_socket % 2 ^ 32 ≢ 0)
  unfolding needs_resize differs
  desired-settles_iff memory =
      rw
        (
          desired_of_cpu,
          desired_of_memory,
          memory,
          laws.same-refl (desired_memory s),
          laws.same-refl (desired_cpu s),
        )
        (ground (arith, zero_cpu_iff))
