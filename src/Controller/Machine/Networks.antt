-- ===== src/Controller/Machine/Networks.antt =====
-- internal/controller/virtualmachine_controller.go: how `buildVMPod` attaches a pod to the
-- machine's networks.
use ch_vmm.Prelude.{
  ℕ, ◌+◌, String, ◌<>◌, true, List, [], ◌∷◌, ◌++◌, Option, none, some, if◌then◌else◌, str_eq, ◌==◌,
}
use ch_vmm.Api.{Interface, Network}
use ch_vmm.Api.Quantity.{Quantities}
use ch_vmm.Webhook.Field.{is_blank, is_set}
use ch_vmm.Controller.Program.{failed, panicked, Program, ◌>>=◌, ◌>>◌, return, fail, must}
use ch_vmm.Controller.Machine.{
  ConditionSets, empty_dir, host_path, text, field, Nad, NadConfig, PodTemplate, World, get_nad,
  Server, State, fetch,
}
use ch_vmm.Controller.Machine.Template.{
  set_key, made_with, add_init, add_env, add_resource, add_mounted,
}

-- The interface of a network, the first of that name.
pub interface_of : String → List Interface → Option Interface
interface_of name [] = none
interface_of name (i ∷ is) = if str_eq i.name name then some i else interface_of name is

-- What the loop over the networks keeps: the pod, the number of interfaces of the userspace plugin,
-- and the networks of the annotation.
pub record Attached (q : Quantities) : Type 0 where
  pub pod : PodTemplate q
  pub userspace : ℕ
  pub selected : List (String × String × String)

module _ {q : Quantities} {sets : ConditionSets} (server : Server q sets) (w : World q) where
  abbrev M : Type 0 → Type 0
  M A = Program (State q sets) A

  -- `vmPod.Annotations[key] = value`, which panics on the nil map.
  unfoldable pub annotate : String → String → PodTemplate q → M (PodTemplate q)
  annotate key value pod = elim pod.annotations [
    | none ↦ λ s. (panicked, s)
    | some m ↦ return (record pod { annotations = some (set_key key value m) })
  ]

  -- `vmPod.Spec.NodeSelector[key] = value`, after a test for the nil map.
  pub select_node : String → String → PodTemplate q → PodTemplate q
  select_node key value pod = record pod { node_selector = made_with key value pod.node_selector }

  -- The vhost-user socket of an interface, by the plugin of its network.
  unfoldable pub attach_ovn : NadConfig → Interface → PodTemplate q → M (PodTemplate q)
  unfolding select_node
  attach_ovn c i pod = do
    marked ←
        annotate "ovn-dpdk.default.ovn.kubernetes.io/mac_address" i.mac
          (select_node "ovn.kubernetes.io/ovs_dp_type" "userspace" pod)
    return (
        add_env "NET_TYPE" (text "kube-ovn") (
          add_env "VHOST_USER_SOCKET" (text ("/var/run/vhost-user/" <> c.socket_name)) (
            add_mounted c.socket_volume empty_dir
              (record { name = c.socket_volume; path = "/var/run/vhost-user" }) marked)))

  pub attach_userspace : PodTemplate q → PodTemplate q
  attach_userspace pod = add_env "NET_TYPE" (text "userspace") (
      add_env "USERSPACE_CONFIGURATION_DATA"
        (field "metadata.annotations['userspace/configuration-data']")
        (add_mounted "vhost-user-sockets" (host_path "/usr/local/var/run/openvswitch/")
          (record { name = "vhost-user-sockets"; path = "/var/run/vhost-user" }) pod))

  unfoldable pub attach_socket : Option NadConfig → Interface → Attached q → M (Attached q)
  unfolding attach_ovn attach_userspace
  attach_socket none i a = fail failed
  attach_socket (some c) i a =
      if str_eq c.kind "kube-ovn"
      then (do pod ← attach_ovn c i a.pod; return (record a { pod = pod }))
      else if str_eq c.kind "userspace"
      then return (record a {
        userspace = a.userspace + 1;
        pod = if a.userspace + 1 == 1 then attach_userspace a.pod else a.pod;
      })
      else fail failed

  -- The network status of the CNI plugins, as the container reads it.
  pub add_network_status : Nad → PodTemplate q → PodTemplate q
  add_network_status nad pod =
      add_env "NETWORK_STATUS" (field "metadata.annotations['k8s.v1.cni.cncf.io/network-status']")
        (if is_blank nad.resource_name then pod else add_resource nad.resource_name pod)

  -- A network that Multus attaches, the `k`th of the machine.
  unfoldable pub attach_multus : ℕ → String → Interface → Attached q → M (Attached q)
  unfolding attach_socket add_network_status
  attach_multus k network i a = do
    answered ← fetch server (get_nad network) (λ t. server.nad t network)
    must answered.0
    let nad = answered.1
    let attached : Attached q = record a {
      selected = a.selected ++ (network, "net" <> w.decimal k, i.mac) ∷ [];
      pod = add_network_status nad a.pod;
    }
    if is_set i.binding.vhost_user then attach_socket nad.config i attached else return attached

  pub add_forwarding : Interface → PodTemplate q → PodTemplate q
  add_forwarding i pod =
      if is_set i.binding.masquerade
      then add_init
          (record {
            name = "enable-ip-forward";
            image = w.prerunner_image;
            privileged = true;
            command = "sysctl" ∷ "-w" ∷ "net.ipv4.ip_forward=1" ∷ [];
            args = [];
            mounts = [];
          })
          pod
      else pod

  -- The loop over the networks, from the `k`th.
  unfoldable pub attach_networks : List Interface → ℕ → List Network → Attached q → M (Attached q)
  unfolding add_forwarding attach_multus
  attach_networks interfaces k [] a = return a
  attach_networks interfaces k (n ∷ ns) a = elim (interface_of n.name interfaces) [
    | none ↦ fail failed
    | some i ↦ do
      let forwarding : Attached q = record a { pod = add_forwarding i a.pod }
      next ← elim n.source.multus [
        | none ↦ return forwarding
        | some m ↦ attach_multus k m.network_name i forwarding
      ]
      attach_networks interfaces (k + 1) ns next
  ]

  unfoldable pub annotate_networks : Attached q → M (PodTemplate q)
  unfolding annotate
  annotate_networks a = elim a.selected [
    | [] ↦ return a.pod
    | _ ↦ elim (w.networks_json a.selected) [
      | none ↦ fail failed
      | some json ↦ annotate "k8s.v1.cni.cncf.io/networks" json a.pod
    ]
  ]
