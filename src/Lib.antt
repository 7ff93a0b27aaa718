-- ===== src/Lib.antt =====
-- ch-vmm runs virtual machines on Kubernetes with Cloud Hypervisor. Users write API objects
-- (VirtualMachine, VMSet, VMPool, VirtualDisk); webhooks complete and check them when they are
-- stored; controllers compare the stored objects with what exists and send the requests that bring
-- the two together; a daemon on each node starts the machines. This library models the parts whose
-- logic is their own:
--
-- - BoundedStack (pkg/util/boundedstack/boundedstack.go): the stack in a ring buffer. `push`, `pop`
--   and `new` are the functions of those names; the channel `recvNotify` is the number of its
--   tokens, `signal` the non-blocking send of `Push`, and `recv_round` one round of the loop of
--   `Recv`. View reads the ring as a list, and Wakeup lets calls interleave at the steps between
--   which they hold no lock. The cancellation of a context is left out.
-- - Lru (pkg/util/lru/lru.go): the cache. An element of `evictList` is an address with an entry,
--   `items` maps a primary key to addresses, and the calls of `onEvict` are recorded. The two
--   hashes of a key are parameters of each operation. The loop of `Add` runs on fuel, one round
--   more than the cache has elements; Lru/Size shows that this is enough, as each round removes an
--   element and an empty cache is within its maximum. Lru/Size has the account of the sizes,
--   Lru/Size/Bound the operations that keep it, and Lru/Size/Purge the one that does not.
-- - LockMap (pkg/util/lockmap/lockmap.go): the mutexes by key. A call of `Lock` or `RLock` is a
--   record that goes through phases; `enter` is what it does under `bigLock`, `collect` what the
--   collector does there, and the rest are steps of their own, in any order. `sync.RWMutex` is its
--   documented behaviour: the conditions of the steps `lock` and `read_lock`. `Close` is left out.
-- - Api: the fields of the API objects that the code reads. The types themselves belong to the
--   module chvmm-api. Api/Quantity is Kubernetes' `resource.Quantity`, by its operations.
-- - Webhook (pkg/webhooks/virtualmachine_webhook.go): Field has the error lists and the shapes in
--   which the validators build them; Volume, Network, Instance and Machine have the validators,
--   named after their functions, and Machine the webhook's answers; Mutate has `MutateVM`. Each
--   validator is shown to report nothing exactly for the objects that a predicate describes
--   (`Decides`). `net.ParseMAC`, `net.ParseCIDR`, the quantities, `reflect.DeepEqual` with the objects that it sees, and the
--   random source are parameters. CPU counts are 32-bit words and wrap around.
-- - Controller: Program has what reconcilers do, a program over a state that returns, fails or
--   panics; Names has the names and their ordinals as bytes, with Go's `strings.Split`,
--   `strconv.Atoi` and `%d` on them; Client has the requests of the set controllers. The answers of
--   the API server are a parameter, a function of all that was asked before. VmSet (internal/controller/vmset_controller.go) is the reconciler of a
--   VMSet: `scale_up`, `scale_down`, `create_disks` and so on are its methods, with the order of
--   their requests; VmSet/Safe and VmSet/Panic have its properties, and VmSet/Creates and
--   VmSet/Created which machines it creates. VmPool
--   (internal/controller/vmpool_controller.go) is the reconciler of a VMPool, with the random bytes
--   of a name as a parameter, and VmPool/Trace and VmPool/Panic its properties. Shrink is the loop
--   of both `scaleDown` methods. Logging is left out, and namespaces, which are those of the set
--   or pool throughout. `int32` values are bit patterns.
-- - Controller/Storage: the reconcilers of a VirtualDisk (Disk,
--   internal/controller/virtualdisk_controller.go) and of a VirtualDiskSnapshot (Snapshot,
--   internal/controller/virtualdisksnapshot_controller.go), which share how a child object is made and
--   deleted; events are told by their reasons. Guards has the rule on the finalizers.
-- - Controller/Machine (internal/controller/virtualmachine_controller.go): the reconciler of a
--   VirtualMachine, a program over the machine's status in memory and the requests so far. Claims is
--   pkg/volumeutil/volumeutil.go as far as it is used here; Template, Networks and Build are
--   `buildVMPod`, with the maps that a pod shares with its machine; Plugged and Hotplug are the pods and
--   the status of hot-plugged volumes; Resize, Conditions, Phases, Migrate and Reconcile the methods of
--   those names. Silent has what leaves the status as it is, Graph the steps of the phases, and Moves,
--   Transitions and Whole that the reconciler makes only these; Migratable, Settles, Secrets and
--   Collect have the other properties. The phases that only the daemon sets are one constructor, and
--   the order in which Go walks a map is that of a list. Methods, constants and generators of other
--   packages are parameters, with no law needed of them.
-- - Controller/Rollback (internal/controller/vmrollback_controller.go): the reconciler of a
--   VMRollback, with `RecoverSnapShotToPVC` of pkg/volumeutil/volumeutil.go. The goroutines that
--   recover the claims run one after the other, each to its end.
-- - Controller/VmSnapshot (internal/controller/vmsnapshot_controller.go): the reconciler of a
--   VMSnapShot, which schedules it and deletes its parts; Parts has the rule on the finalizer.
-- - Daemon (pkg/daemon/vm_controller.go): the reconciler of a machine on its node, a program over the
--   machine's status in memory, the control block of a migration and the requests so far to the API
--   server, the hypervisor and the host, of which all answers are parameters. Numbers is
--   `getBlockFileMajorMinor` with `strconv.ParseInt`, Cgroup pkg/daemon/cgroup, Records the record of
--   mounts, Mounts, Umounts and Plugs the hot-plugged volumes, Migrate the branch of a migration, Phases that of
--   each phase, and Reconcile the methods above them. Waits for a file are on fuel, the number of looks,
--   which is a parameter: a wait that runs out fails as the code's does. The goroutines that send and
--   receive a machine are requests that start, poll and cancel them. Numbers/Bases and Volumes have
--   properties of their own; Frame and Steps, Moves, Stays and Handover follow the phase, the migration and the
--   node through the parts, Whole and Placed through a call, and Calls through those of the daemons of all
--   nodes. `strings.Contains`, `strings.HasPrefix`, the float that gives the tolerance of a resize and a method of the API module
--   are parameters, with no law needed of them.
-- - Daemon/Snapshot (pkg/daemon/snapshot_controller.go): the reconciler of a VMSnapShot on the node of
--   its machine: Take is how a snapshot is taken, with what is deferred, and Reconcile the phases. Calm
--   and Taking follow the phases and the pauses of the machine through the parts, Steps, Turns, Whole and
--   Resumed through a call, and Lost has what a refused update leaves. Bare
--   and Forgotten follow a status without disks.
-- - CpuSet (pkg/cpuset/cpuset.go): `parse` is `Parse`, on fuel for the loop over a range: 2 ^ 63 rounds
--   are enough unless the loop has no end. Ranges has the intervals that a text stands for.
-- - Tests: each theorem at a concrete input.
--
-- Prelude has the shared names, tests and lemmas, and Go's `int64` and `int32` by bit patterns.
-- Numbers whose sign or overflow matters are bit patterns; hypotheses such as `< 2 ^ 62` say where
-- the arithmetic is exact.
--
-- Not modelled: the daemon's servers and its device plug-in, the prerunner, the generated Cloud
-- Hypervisor client, gRPC, logging and metrics, which are I/O or generated; the controller of
-- migrations, which only writes two phases; the webhooks of the other objects, which check single
-- fields; reading the file of the host's CPUs. Of pods the parts are left out that are constant or
-- copied from the machine (affinity, tolerations, probes, capabilities), and namespaces throughout.
pub mod Prelude
pub mod BoundedStack
pub mod Lru
pub mod LockMap
pub mod CpuSet
pub mod Api
pub mod Webhook
pub mod Controller
pub mod Daemon
pub mod Tests
