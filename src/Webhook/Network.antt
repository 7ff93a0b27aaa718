-- ===== src/Webhook/Network.antt =====
-- pkg/webhooks/virtualmachine_webhook.go: the checks of a network and of an interface.
use ch_vmm.Prelude.{
  ℕ, ◌+◌, ◌-◌, ◌≤◌, String, ◌≡◌, sym, ◌∙◌, ◌≢◌, Bool, true, not, List, [], ◌∷◌, Option, none, some,
  arith, if◌then◌else◌, ◌==◌, ltb, ltb→le, le→ltb, ◌⊎◌, inl, inr, Option-cases,
}
use ch_vmm.Api.{
  MultusNetworkSource, NetworkSource, Network, Masquerade, InterfaceBindingMethod, Interface,
}
use ch_vmm.Webhook.Field.{
  FieldPath, child, required, invalid, ErrorList, error, is_blank, when, join, on, tick, Decides,
  Decides-when, Decides-blank, Decides-append, Decides-nil, OnSome, Decides-on, OneOf, is_set,
  total, tick-total, Decides-OneOf, Decides-given, Decides-required, Decides-iff,
}

pub validate_pod_network : Unit {0} → FieldPath → ErrorList
validate_pod_network s p = []

pub validate_multus_network : MultusNetworkSource → FieldPath → ErrorList
validate_multus_network s p =
    when (is_blank s.network_name)
      (error required (child "networkName" ∷ p) "multus network name must be set")

pub validate_network_source : NetworkSource → FieldPath → ErrorList
validate_network_source s p =
    let count : ℕ = tick s.pod + tick s.multus in
    join (
      on s.pod (λ n. validate_pod_network n (child "pod" ∷ p))
      ∷ on s.multus (λ n. validate_multus_network n (child "multus" ∷ p))
      ∷ when (count == 0) (error required p "at least one network source must be set")
      ∷ when (ltb 1 count) (error invalid p "only one network source can be set")
      ∷ [])

pub validate_network : Network → FieldPath → ErrorList
validate_network n p = join (
    when (is_blank n.name) (error required (child "name" ∷ p) "network name must be set")
    ∷ validate_network_source n.source (child "networkSource" ∷ p)
    ∷ [])

-- Go's `net.ParseMAC` and `net.ParseCIDR`: whether a text is an address, and the two results of
-- `network.Mask.Size()` of a text that is a CIDR.
pub record NetParsers : Type 0 where
  pub parse_mac : String → Bool
  pub parse_cidr : String → Option (ℕ × ℕ)

module _ (net : NetParsers) where
  pub validate_mac : String → FieldPath → ErrorList
  validate_mac mac p = when (not (net.parse_mac mac)) (error invalid p "invalid MAC address")

  -- `bits - ones` is not negative: a mask's leading ones are some of its bits. The source formats
  -- the number 4, its only capacity, into the message.
  pub validate_cidr : String → ℕ → FieldPath → ErrorList
  validate_cidr cidr capacity p = elim (net.parse_cidr cidr) [
    | none ↦ error invalid p "invalid CIDR" ∷ []
    | some (ones, bits) ↦
        when (ltb (bits - ones) capacity) (error invalid p "CIDR must have at least 4 IP addresses")
  ]

  pub validate_masquerade : Masquerade → FieldPath → ErrorList
  unfolding validate_cidr
  validate_masquerade m p =
      if is_blank m.cidr
      then error required (child "cidr" ∷ child "masquerade" ∷ p) "masquerade CIDR must be set" ∷ []
      else validate_cidr m.cidr 4 (child "cidr" ∷ child "masquerade" ∷ p)

  abbrev pub binding_flags : InterfaceBindingMethod → List Bool
  binding_flags b =
      is_set b.bridge
      ∷ is_set b.masquerade
      ∷ is_set b.sriov
      ∷ is_set b.vdpa
      ∷ is_set b.vhost_user
      ∷ []

  binding_count : InterfaceBindingMethod → ℕ
  binding_count b =
      tick b.bridge + tick b.masquerade + tick b.sriov + tick b.vdpa + tick b.vhost_user

  binding_count-total : (b : InterfaceBindingMethod) → binding_count b ≡ total (binding_flags b)
  unfolding binding_count
  binding_count-total b = omega (arith, tick-total {0})

  pub validate_binding_method : InterfaceBindingMethod → FieldPath → ErrorList
  validate_binding_method b p = join (
      on b.masquerade (λ m. validate_masquerade m p)
      ∷ when (binding_count b == 0)
          (error required p "at least one interface binding method must be set")
      ∷ when (ltb 1 (binding_count b))
          (error invalid p "only one interface binding method can be set")
      ∷ [])

  pub validate_interface : Interface → FieldPath → ErrorList
  validate_interface i p = join (
      when (is_blank i.name) (error required (child "name" ∷ p) "interface name must be set")
      ∷ (if is_blank i.mac then [] else validate_mac i.mac (child "mac" ∷ p))
      ∷ validate_binding_method i.binding (child "interfaceBindingMethod" ∷ p)
      ∷ [])

  -- A CIDR that parses and leaves at least four bits to the hosts.
  pub record IsWideCidr (cidr : String) : Type 0 where
    pub ones : ℕ
    pub bits : ℕ
    pub parses : net.parse_cidr cidr ≡ some (ones, bits)
    pub wide : 4 ≤ bits - ones

  pub record IsBinding (b : InterfaceBindingMethod) : Type 0 where
    pub one : OneOf (binding_flags b)
    pub masquerade : OnSome (λ m. (m.cidr ≢ "") × IsWideCidr m.cidr) b.masquerade

  pub record IsInterface (i : Interface) : Type 0 where
    pub named : i.name ≢ ""
    pub mac : (i.mac ≡ "") ⊎ (net.parse_mac i.mac ≡ true)
    pub binding : IsBinding i.binding

  pub wide_of :
      (a b c d : ℕ) → ◌≡◌ {A = Option (ℕ × ℕ)} (some (a, b)) (some (c, d)) → 4 ≤ b - a → 4 ≤ d - c
  wide_of a b c d e h = ground arith

  Decides-cidr :
      (cidr : String) (p : FieldPath) → Decides (validate_cidr cidr 4 p) (IsWideCidr cidr)
  unfolding validate_cidr
  Decides-cidr cidr p = elim (Option-cases (net.parse_cidr cidr)) [
    | inl e ↦ rw (e, validate_cidr) ((λ h. cc), (λ w. cc (w.parses)))
    | inr ((ones, bits), e) ↦
        rw (e, validate_cidr)
          (Decides-iff (Decides-when (ltb (bits - ones) 4) _) (
            (λ h. record { ones = ones; bits = bits; parses = e; wide = ltb→le (bits - ones) 4 h }),
            (λ w.
                let both : some (w.ones, w.bits) ≡ some (ones, bits) = sym w.parses ∙ e in
                le→ltb (bits - ones) 4 (wide_of w.ones w.bits ones bits both w.wide)),
          ))
  ]

  Decides-masquerade :
      (m : Masquerade) (p : FieldPath)
      → Decides (validate_masquerade m p) ((m.cidr ≢ "") × IsWideCidr m.cidr)
  unfolding validate_masquerade
  Decides-masquerade m p = Decides-required m.cidr _ (Decides-cidr m.cidr _)

  pub Decides-binding :
      (b : InterfaceBindingMethod) (p : FieldPath)
      → Decides (validate_binding_method b p) (IsBinding b)
  unfolding validate_binding_method
  Decides-binding b p =
      Decides-iff
        (Decides-append (Decides-on b.masquerade _ (λ m. Decides-masquerade m p))
          (Decides-OneOf (binding_flags b) (binding_count b) _ _ (binding_count-total b)))
        ((λ h. record { masquerade = h.0; one = h.1 }), (λ v. (v.masquerade, v.one)))

  Decides-mac :
      (mac : String) (p : FieldPath)
      → Decides
          (if is_blank mac then [] else validate_mac mac p)
          ((mac ≡ "") ⊎ (net.parse_mac mac ≡ true))
  unfolding validate_mac
  Decides-mac mac p =
      Decides-given mac
        (Decides-iff (Decides-when (not (net.parse_mac mac)) _) ((λ h. ground arith), (λ h. rw h)))

  -- The checks of an interface pass exactly for a well-formed one.
  pub Decides-interface :
      (i : Interface) (p : FieldPath) → Decides (validate_interface i p) (IsInterface i)
  unfolding validate_interface
  Decides-interface i p =
      Decides-iff
        (Decides-append (Decides-blank i.name _) (
          Decides-append (Decides-mac i.mac _)
            (Decides-append (Decides-binding i.binding _) Decides-nil)))
        (
          (λ h. record { named = h.0; mac = h.1.0; binding = h.1.1.0 }),
          (λ v. (v.named, (v.mac, (v.binding, tt)))),
        )

pub record IsNetwork (n : Network) : Type 0 where
  pub named : n.name ≢ ""
  pub one : OneOf (is_set n.source.pod ∷ is_set n.source.multus ∷ [])
  pub multus : OnSome (λ m. m.network_name ≢ "") n.source.multus

-- The checks of a network pass exactly for a well-formed one.
pub Decides-network : (n : Network) (p : FieldPath) → Decides (validate_network n p) (IsNetwork n)
unfolding validate_network validate_network_source validate_pod_network validate_multus_network
Decides-network n p =
    let s = n.source in
    Decides-iff
      (Decides-append (Decides-blank n.name _) (
        Decides-append
          (Decides-append (Decides-on {P = λ _. Unit} s.pod _ (λ _. Decides-nil)) (
            Decides-append (Decides-on s.multus _ (λ m. Decides-blank m.network_name _)) (
              Decides-OneOf (is_set s.pod ∷ is_set s.multus ∷ []) (tick s.pod + tick s.multus) _ _
                (omega (arith, tick-total {0})))))
          Decides-nil))
      (
        (λ h. record { named = h.0; one = h.1.0.1.1; multus = h.1.0.1.0 }),
        (λ v. (v.named, ((no_pod_check s.pod, (v.multus, v.one)), tt))),
      )
  where
    no_pod_check : (o : Option (Unit {0})) → OnSome (λ _. Unit {0}) o
    no_pod_check none = tt
    no_pod_check (some u) = tt
