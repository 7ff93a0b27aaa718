-- ===== src/Daemon/Cgroup.antt =====
-- pkg/daemon/cgroup: which devices a machine's hypervisor may use.
use ch_vmm.Prelude.{
  ℕ, zero, suc, ◌+◌, ◌-◌, ◌^◌, String, ◌<>◌, Bool, true, false, not, ◌&&◌, ◌||◌, List, [], ◌∷◌,
  ◌++◌, Option, none, some, if◌then◌else◌, ◌==◌,
}
use ch_vmm.Api.{Volume}
use ch_vmm.Webhook.Field.{is_set}
use ch_vmm.Controller.Program.{
  Answer, done, not_found, panicked, Program, ◌>>=◌, ◌>>◌, return, fail, must,
}
use ch_vmm.Daemon.{
  Vm, Status, Rule, stat, pid_of, read_cgroup, new_cgroup, stat_numbers, set_rules, Server, Node,
  State, get_status, call, fetch, join,
}
use ch_vmm.Daemon.Numbers.{device_numbers}

abbrev char_device : ℕ → ℕ → Rule
char_device major minor = record { is_block = false; major = major; minor = minor; allow = true }

-- The rules for `n` pseudo-terminals from a major number on.
terminals : ℕ → ℕ → List Rule
terminals zero major = []
terminals (suc n) major = char_device major (2 ^ 64 - 1) ∷ terminals n (major + 1)

pub fixed_rules : List Rule
unfolding terminals
fixed_rules =
    char_device 1 3
    ∷ char_device 10 200
    ∷ char_device 5 2
    ∷ char_device 10 232
    ∷ char_device 1 9
    ∷ terminals 16 136

-- `var found`: the last of the new rules decides.
pub found_last : Rule → List Rule → Bool → Bool
found_last current [] found = found
found_last current (r ∷ rs) found = found_last current rs (
    (if r.is_block then current.is_block else not current.is_block)
    && current.major == r.major
    && current.minor == r.minor)

pub with_missing : List Rule → List Rule → List Rule → List Rule
unfolding found_last
with_missing [] new rules = rules
with_missing (c ∷ cs) new rules =
    with_missing cs new (if found_last c new false then rules else rules ++ c ∷ [])

module _ (server : Server) (node : Node) (vm : Vm) where
  abbrev M : Type 0 → Type 0
  M A = Program State A

  unfoldable pub found_numbers : Option (ℕ × ℕ) → M (ℕ × ℕ)
  found_numbers none = fail Answer.failed
  found_numbers (some n) = return n

  -- `getBlockFileMajorMinor`, in the base that is given to `ParseInt`.
  unfoldable pub numbers_of : ℕ → String → M (ℕ × ℕ)
  unfolding found_numbers
  numbers_of base path = do
    answered ← fetch server (stat_numbers path) server.output
    must answered.0
    found_numbers (device_numbers base answered.1)

  -- `NewManager`: the process of the machine's hypervisor, or `none` where its socket is not there.
  unfoldable pub with_process : Answer → String → M (Option ℕ)
  with_process done path = do
    answered ← fetch server (pid_of path) server.pid
    must answered.0
    read ← call server (read_cgroup answered.1)
    must read
    if node.is_unified
        then (do made ← call server (new_cgroup answered.1); must made; return (some answered.1))
        else (λ s. (panicked, s))
  with_process not_found path = return none
  with_process e path = fail e

  abbrev pub manager_socket : Status → String
  manager_socket s =
      join (join "/var/lib/kubelet/pods" s.pod_uid)
        "volumes/kubernetes.io~empty-dir/virtink/vm.sock"

  unfoldable pub new_manager : M (Option ℕ)
  unfolding with_process join
  new_manager = do
    s ← get_status
    answered ← call server (stat (manager_socket s))
    with_process answered (manager_socket s)

  -- The file of a volume's device.
  unfoldable pub device_path : ℕ → Status → Volume → String
  unfolding join
  device_path pid s v =
      if node.is_hotpluggable v
      then join
          (join (join "/var/lib/kubelet/pods" s.pod_uid)
            "volumes/kubernetes.io~empty-dir/hotplug-volumes")
          v.name
      else "/proc/" <> node.decimal pid <> "/root/mnt/" <> v.name

  unfoldable pub rule_if : Answer → String → M (List Rule)
  unfolding numbers_of
  rule_if done path = do
    numbers ← numbers_of 26 path
    return (record { is_block = true; major = numbers.0; minor = numbers.1; allow = true } ∷ [])
  rule_if not_found path = return []
  rule_if e path = fail e

  unfoldable pub volume_rules : ℕ → List Volume → M (List Rule)
  unfolding device_path rule_if
  volume_rules pid [] = return []
  volume_rules pid (v ∷ vs) =
      let rest = volume_rules pid vs in
      if is_set v.source.persistent_volume_claim || is_set v.source.data_volume
      then (do
        s ← get_status
        answered ← call server (stat (device_path pid s v))
        rules ← rule_if answered (device_path pid s v)
        others ← rest
        return (rules ++ others))
      else rest

  -- `Set`, with the rules that it is given.
  unfoldable pub set_devices : ℕ → List Rule → M (Unit {0})
  unfolding volume_rules with_missing fixed_rules
  set_devices pid rules = do
    own ← volume_rules pid vm.volumes
    answered ← call server (set_rules (with_missing (fixed_rules ++ own) rules rules))
    must answered
