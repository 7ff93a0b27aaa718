-- ===== src/Controller/Machine/Silent/Pods.antt =====
-- The pods that a machine's reconciler builds, creates and deletes: none of it changes the status.
use ch_vmm.Prelude.{arith, ℕ, ◌+◌, String, List, [], ◌∷◌, Option, none, some}
use ch_vmm.Api.{Volume, Interface, Network}
use ch_vmm.Api.Quantity.{Quantities}
use ch_vmm.Controller.Program.{option-Keeps, bind-Keeps, fail, failed, return}
use ch_vmm.Controller.Machine.{ConditionSets, NadConfig, PodTemplate, Vm, World, Server}
use ch_vmm.Controller.Machine.Silent.{Silent, silent, is_block-Silent, is_ready-Silent}
use ch_vmm.Controller.Machine.Networks.{
  Attached, interface_of, annotate, attach_ovn, attach_socket, attach_multus, attach_networks,
  annotate_networks,
}
use ch_vmm.Controller.Machine.Template.{shared_vm}
use ch_vmm.Controller.Machine.Build.{
  add_claimed, add_source, add_sources, finish_pod, build_vm_pod, build_target_pod,
}

module _ {q : Quantities} {sets : ConditionSets} (server : Server q sets) (w : World q) where
  add_claimed-Silent :
      (v : Volume) (made : PodTemplate q × List String) → Silent (add_claimed server w v made)
  unfolding add_claimed
  add_claimed-Silent v (pod, blocks) = search (silent, is_ready-Silent, is_block-Silent)

  add_source-Silent :
      (vm : Vm q) (v : Volume) (made : PodTemplate q × List String)
      → Silent (add_source server w vm v made)
  unfolding add_source
  add_source-Silent vm v (pod, blocks) = record {
    kept = λ s. ground (arith, (add_claimed-Silent v (pod, blocks)).kept s);
  }

  add_sources-Silent :
      (vm : Vm q) (vs : List Volume) (made : PodTemplate q × List String)
      → Silent (add_sources server w vm vs made)
  unfolding add_sources
  add_sources-Silent vm [] made = search silent
  add_sources-Silent vm (v ∷ vs) made =
      bind-Keeps (add_source-Silent vm v made) (add_sources-Silent vm vs)

  annotate-Silent :
      (key value : String) (pod : PodTemplate q) → Silent (annotate server w key value pod)
  unfolding annotate
  annotate-Silent key value pod = option-Keeps pod.annotations (search silent) (λ m. search silent)

  attach_socket-Silent :
      (c : Option NadConfig) (i : Interface) (a : Attached q)
      → Silent (attach_socket server w c i a)
  unfolding attach_socket attach_ovn
  attach_socket-Silent none i a = search silent
  attach_socket-Silent (some c) i a = search (silent, annotate-Silent)

  attach_multus-Silent :
      (k : ℕ) (network : String) (i : Interface) (a : Attached q)
      → Silent (attach_multus server w k network i a)
  unfolding attach_multus
  attach_multus-Silent k network i a = search (silent, attach_socket-Silent)

  attach_networks-Silent :
      (is : List Interface) (k : ℕ) (ns : List Network) (a : Attached q)
      → Silent (attach_networks server w is k ns a)
  unfolding attach_networks
  attach_networks-Silent is k [] a = search silent
  attach_networks-Silent is k (n ∷ ns) a =
      option-Keeps (interface_of n.name is) (search silent) (λ i.
        bind-Keeps
          (option-Keeps n.source.multus (search silent)
            (λ m. attach_multus-Silent k m.network_name i _))
          (attach_networks-Silent is (k + 1) ns))

  annotate_networks-Silent : (a : Attached q) → Silent (annotate_networks server w a)
  unfolding annotate_networks
  annotate_networks-Silent a = by_selected a.selected
    where
      by_selected :
          (l : List (String × String × String))
          → Silent {q = q} {sets = sets} (elim l [
            | [] ↦ return a.pod
            | _ ↦ elim (w.networks_json a.selected) [
              | none ↦ fail failed
              | some json ↦ annotate server w "k8s.v1.cni.cncf.io/networks" json a.pod
            ]
          ])
      by_selected [] = search silent
      by_selected (x ∷ xs) =
          option-Keeps (w.networks_json a.selected) (search silent)
            (λ json. annotate-Silent _ json a.pod)

  finish_pod-Silent : (vm : Vm q) (pod : PodTemplate q) → Silent (finish_pod server w vm pod)
  unfolding finish_pod
  finish_pod-Silent vm pod = bind-Keeps (attach_networks-Silent _ _ _ _) (λ attached.
      bind-Keeps (annotate_networks-Silent attached) (λ annotated.
        option-Keeps (w.vm_json (shared_vm vm annotated)) (search silent) (λ json. search silent)))

  pub build_vm_pod-Silent : (vm : Vm q) → Silent (build_vm_pod server w vm)
  unfolding build_vm_pod
  build_vm_pod-Silent vm = search (silent, add_sources-Silent, finish_pod-Silent)

  pub build_target_pod-Silent : (vm : Vm q) → Silent (build_target_pod server w vm)
  unfolding build_target_pod
  build_target_pod-Silent vm = search (silent, build_vm_pod-Silent)
