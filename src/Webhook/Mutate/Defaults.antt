-- ===== src/Webhook/Mutate/Defaults.antt =====
-- pkg/webhooks/virtualmachine_webhook.go: what `MutateVM` gives, and how the validators see it.
use mathlib.Core.Option
use text.Mathlib.TextLemmas.{append-eq-nil_iff}
use ch_vmm.Prelude.{
  ℕ, ◌-◌, ◌≤◌, String, ◌≡◌, refl, ◌≢◌, inl, inr, true, false, ◌||◌, List, [], ◌∷◌, map, Option,
  none, some, arith, if◌then◌else◌, ◌==◌, eq_iff, All, Option-cases, none≢some, map-eq-some, sym,
  ◌∙◌, ap,
}
use ch_vmm.Api.{
  Masquerade, InterfaceBindingMethod, Interface, Memory, Resources, VirtualMachine, Cpu,
}
use ch_vmm.Api.Quantity.{Quantities}
use ch_vmm.Webhook.Field.{is_blank, is_set, OnSome, FieldPath}
use ch_vmm.Webhook.Network.{NetParsers, validate_binding_method, Decides-binding, wide_of}
use ch_vmm.Webhook.Mutate.{
  Rand, default_cidr, default_mac, default_binding, default_interfaces, default_cpu, default_size,
  mutate_vm, generate_mac, mac_text, old_mac, old_interfaces, default_masquerade, fill_method,
}

-- A binding method with some part given, and no masquerade without its CIDR.
pub record HasBinding (b : InterfaceBindingMethod) : Type 0 where
  pub given :
      (is_set b.bridge
        || is_set b.masquerade
        || is_set b.sriov
        || is_set b.vdpa
        || is_set b.vhost_user)
      ≡ true
  pub masquerade : OnSome (λ m. m.cidr ≢ "") b.masquerade

default_masquerade-given : (m : Masquerade) → (default_masquerade m).cidr ≢ ""
unfolding default_masquerade
default_masquerade-given m = ground (arith, eq_iff m.cidr "", eq_iff default_cidr "")

fill_method-given :
    (b : InterfaceBindingMethod)
    → let f = fill_method b in
      (is_set f.bridge
        || is_set f.masquerade
        || is_set f.sriov
        || is_set f.vdpa
        || is_set f.vhost_user)
      ≡ true
unfolding fill_method
fill_method-given b = ground arith

map-given : (o : Option Masquerade) → OnSome (λ m. m.cidr ≢ "") (Option.map default_masquerade o)
map-given none = tt
map-given (some m) = default_masquerade-given m

is_set-map : (o : Option Masquerade) → is_set (Option.map default_masquerade o) ≡ is_set o
is_set-map none = refl
is_set-map (some m) = refl

default_binding-HasBinding : (b : InterfaceBindingMethod) → HasBinding (default_binding b)
unfolding default_binding
default_binding-HasBinding b = record {
  given = rw (is_set-map (fill_method b).masquerade) (fill_method-given b);
  masquerade = map-given (fill_method b).masquerade;
}

mac_text-given : (a b c : ℕ) → mac_text a b c ≢ ""
unfolding mac_text
mac_text-given a b c blank = prefix_given ((append-eq-nil_iff {p = "52:54:00:"} {q = _}).0 blank).0
  where
    prefix_given : ◌≢◌ {A = String} "52:54:00:" ""
    prefix_given = ground (arith, eq_iff "52:54:00:" "")

-- The random MAC is never blank.
generate_mac-given : (rand : Rand) (k : ℕ) (m : String) → generate_mac rand k ≡ some m → m ≢ ""
unfolding generate_mac
generate_mac-given rand k m e = elim (Option-cases (rand k)) [
  | inl n ↦ absurd (none≢some (rw (n, generate_mac) at e))
  | inr ((a, b, c), h) ↦
      let made : mac_text a b c ≡ m = cc (rw (h, generate_mac) at e) in
      λ blank. mac_text-given a b c (made ∙ blank)
]

-- What an interface is after `MutateVM`.
pub record IsFilled (i : Interface) : Type 0 where
  pub mac : i.mac ≢ ""
  pub binding : HasBinding i.binding

default_mac-given :
    (rand : Rand) (old : List Interface) (k : ℕ) (i : Interface) (m : String) (k' : ℕ)
    → default_mac rand old k i ≡ some (m, k')
    → m ≢ ""
unfolding default_mac
default_mac-given rand old k i m k' e =
    ground (arith, eq_iff i.mac "", eq_iff (old_mac i.name old) "", generate_mac-given rand k m)

default_interfaces-IsFilled :
    (rand : Rand) (old : List Interface) (k : ℕ) (is filled : List Interface)
    → default_interfaces rand old k is ≡ some filled
    → All IsFilled filled
      × (map (λ (i : Interface). i.name) filled ≡ map (λ (i : Interface). i.name) is)
unfolding default_interfaces
default_interfaces-IsFilled rand old k [] filled e =
    let none_left : [] ≡ filled = cc in rw (← none_left) (tt, refl)
default_interfaces-IsFilled rand old k (i ∷ is) filled e =
    elim (Option-cases (default_mac rand old k i)) [
      | inl n ↦ absurd (none≢some (rw (n, default_interfaces) at e))
      | inr ((mac, k'), h) ↦ elim (Option-cases (default_interfaces rand old k' is)) [
        | inl n ↦ absurd (none≢some (rw (h, n, default_interfaces) at e))
        | inr (rest, r) ↦
            let (filled_rest, names) = default_interfaces-IsFilled rand old k' is rest r in
            let made : record i { mac = mac; binding = default_binding i.binding } ∷ rest ≡ filled =
              cc (rw (h, r, default_interfaces) at e) in
            rw (← made) (
              (
                record {
                  mac = default_mac-given rand old k i mac k' h;
                  binding = default_binding-HasBinding i.binding;
                },
                filled_rest,
              ),
              ap (◌∷◌ i.name) names,
            )
      ]
    ]

module _ (q : Quantities) where
  open q use {Quantity, is_zero, must_parse}

  pub record HasDefaults (vm : VirtualMachine q) : Type 0 where
    pub run_policy : vm.spec.run_policy ≢ ""
    pub sockets : vm.spec.instance_spec.cpu.sockets ≢ 0
    pub cores_per_socket : vm.spec.instance_spec.cpu.cores_per_socket ≢ 0
    pub memory : is_zero vm.spec.instance_spec.memory.size ≡ false
    pub interfaces : All IsFilled vm.spec.instance_spec.interfaces

  default_size-given :
      (m : Memory q) (r : Resources q)
      → is_zero (must_parse "1Gi") ≡ false
      → is_zero (default_size q m r.requests) ≡ false
  unfolding default_size
  default_size-given m r h = ground arith

  default_policy-given : (once p : String) → once ≢ "" → (if is_blank p then once else p) ≢ ""
  default_policy-given once p h = ground (arith, eq_iff p "")

  positive : (n : ℕ) → (if n == 0 then 1 else n) ≢ 0
  positive n = ground arith

  default_cpu-positive :
      (c : Cpu) → ((default_cpu q c).sockets ≢ 0) × ((default_cpu q c).cores_per_socket ≢ 0)
  unfolding default_cpu
  default_cpu-positive c = (positive c.sockets, positive c.cores_per_socket)

  mutate_vm_given :
      (once : String) (rand : Rand) (vm vm' : VirtualMachine q) (old : Option (VirtualMachine q))
      → once ≢ ""
      → is_zero (must_parse "1Gi") ≡ false
      → mutate_vm q once rand vm old ≡ some vm'
      → HasDefaults vm'
  unfolding mutate_vm
  mutate_vm_given once rand vm vm' old h z e =
      let s = vm.spec in
      let i = s.instance_spec in
      let (filled, r, made) =
        map-eq-some _ (default_interfaces rand (old_interfaces q old) 0 i.interfaces) e in
      let cpus = default_cpu-positive i.cpu in
      rw (← made) (record {
        run_policy = default_policy-given once s.run_policy h;
        sockets = cpus.0;
        cores_per_socket = cpus.1;
        memory = default_size-given i.memory s.resources z;
        interfaces =
            (default_interfaces-IsFilled rand (old_interfaces q old) 0 i.interfaces filled r).0;
      })

-- A random source that does not fail.
abbrev pub Reads : Rand → Type 0
Reads rand = (k : ℕ) → rand k ≢ none

default_mac_total :
    (rand : Rand) (old : List Interface) (k : ℕ) (i : Interface)
    → Reads rand
    → default_mac rand old k i ≢ none
unfolding default_mac generate_mac
default_mac_total rand old k i h = ground (arith, h k)

default_interfaces_total :
    (rand : Rand) (old : List Interface) (k : ℕ) (is : List Interface)
    → Reads rand
    → default_interfaces rand old k is ≢ none
unfolding default_interfaces
default_interfaces_total rand old k [] h = cc
default_interfaces_total rand old k (i ∷ is) h = elim (Option-cases (default_mac rand old k i)) [
  | inl n ↦ absurd (default_mac_total rand old k i h n)
  | inr ((mac, k'), e) ↦ elim (Option-cases (default_interfaces rand old k' is)) [
    | inl n ↦ absurd (default_interfaces_total rand old k' is h n)
    | inr (rest, r) ↦ rw (e, r, default_interfaces) cc
  ]
]

module _ (q : Quantities) where
  open q use {is_zero, must_parse}

  mutate_vm_total :
      (once : String) (rand : Rand) (vm : VirtualMachine q) (old : Option (VirtualMachine q))
      → Reads rand
      → mutate_vm q once rand vm old ≢ none
  unfolding mutate_vm
  mutate_vm_total once rand vm old h =
      let is = vm.spec.instance_spec.interfaces in
      elim (Option-cases (default_interfaces rand (old_interfaces q old) 0 is)) [
        | inl n ↦ absurd (default_interfaces_total rand (old_interfaces q old) 0 is h n)
        | inr (rest, r) ↦ rw (r, mutate_vm) cc
      ]

  -- Where the random source does not fail, `MutateVM` succeeds, and the machine has a run policy,
  -- CPUs, memory, and for each interface a MAC, a binding method and, if that is a masquerade, its
  -- CIDR. (The policy `once` is not blank, and the text "1Gi" is not zero.)
  pub mutate_vm-HasDefaults :
      (once : String) (rand : Rand) (vm : VirtualMachine q) (old : Option (VirtualMachine q))
      → once ≢ ""
      → is_zero (must_parse "1Gi") ≡ false
      → Reads rand
      → (vm' : VirtualMachine q) × (mutate_vm q once rand vm old ≡ some vm') × HasDefaults q vm'
  mutate_vm-HasDefaults once rand vm old h z reads =
      elim (Option-cases (mutate_vm q once rand vm old)) [
        | inl n ↦ absurd (mutate_vm_total once rand vm old reads n)
        | inr (vm', e) ↦ (vm', e, mutate_vm_given q once rand vm vm' old h z e)
      ]

default_binding-blank :
    (b : InterfaceBindingMethod)
    → b.masquerade ≡ some (record { cidr = "" })
    → (default_binding b).masquerade ≡ some (record { cidr = default_cidr })
unfolding default_binding fill_method default_masquerade
default_binding-blank b e = ground (arith, eq_iff "" "")

-- The CIDR that `MutateVM` gives a masquerade without one has too few host bits for the validator:
-- it is refused, whatever else the interface has. (`net.ParseCIDR` gives 30 of 32 bits for it.)
pub default_masquerade_refused :
    (net : NetParsers) (b : InterfaceBindingMethod) (p : FieldPath)
    → net.parse_cidr default_cidr ≡ some (30, 32)
    → b.masquerade ≡ some (record { cidr = "" })
    → validate_binding_method net (default_binding b) p ≢ []
default_masquerade_refused net b p h e none_found =
    let v = (Decides-binding net (default_binding b) p).0 none_found in
    let w = (rw (default_binding-blank b e) at v.masquerade).1 in
    absurd (not_wide (wide_of net w.ones w.bits 30 32 (sym w.parses ∙ h) w.wide))
  where
    not_wide : 4 ≤ 32 - 30 → ⊥
    not_wide le = omega arith
