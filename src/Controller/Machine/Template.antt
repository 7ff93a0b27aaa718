-- ===== src/Controller/Machine/Template.antt =====
-- internal/controller/virtualmachine_controller.go: how `buildVMPod` puts a pod together, for the
-- parts that ask the server nothing.
use ch_vmm.Prelude.{
  ◌+◌, String, ◌<>◌, false, List, [], ◌∷◌, ◌++◌, Option, none, some, if◌then◌else◌, str_eq,
}
use ch_vmm.Api.{CloudInitVolumeSource, ResourceList, Resources, Gpu}
use ch_vmm.Api.Quantity.{Quantities}
use ch_vmm.Webhook.Field.{is_blank}
use ch_vmm.Webhook.Machine.{quantity_of}
use ch_vmm.Controller.Machine.{
  StringMap, PodVolumeSource, empty_dir, huge_pages, secret, VolumeMount, EnvValue, InitContainer,
  PodTemplate, Vm, World,
}

-- `m[key] = value` on a map that is not nil.
pub set_key : String → String → List (String × String) → List (String × String)
set_key key value [] = (key, value) ∷ []
set_key key value ((k, v) ∷ m) =
    if str_eq k key then (k, value) ∷ m else (k, v) ∷ set_key key value m

-- The map with the key set, a new one for the nil map.
pub made_with : String → String → StringMap → StringMap
unfolding set_key
made_with key value none = some ((key, value) ∷ [])
made_with key value (some m) = some (set_key key value m)

-- A map that two structs share: what the one has once `changed` was made of it through the other.
-- A nil map is not shared.
pub through {ℓ} : {A : Type ℓ} → Option A → Option A → Option A
through none changed = none
through (some m) changed = changed

-- The mount of a volume under `/mnt`.
abbrev pub mount_of : String → VolumeMount
mount_of name = record { name = name; path = "/mnt/" <> name }

abbrev pub init_container :
    String → String → List String → List String → List VolumeMount → InitContainer
init_container name image command args mounts = record {
  name = name;
  image = image;
  privileged = false;
  command = command;
  args = args;
  mounts = mounts;
}

-- One of the two texts of a `CloudInit` volume, as the init container gets it, and the secret in
-- which it stands, if in one.
unfoldable pub data_of :
    (String → String) → String → String → String → String → String × Option String
data_of base64 text encoded name path =
    if is_blank text
    then if is_blank encoded
      then (if is_blank name then ("", none) else (path <> "/value", some name))
      else (encoded, none)
    else (base64 text, none)

abbrev pub user_mount : VolumeMount
user_mount = mount_of "virtmanager-cloud-init-user-data"

abbrev pub network_mount : VolumeMount
network_mount = mount_of "virtmanager-cloud-init-network-data"

-- `incrementContainerResource`.
pub increment_list : (q : Quantities) → ResourceList q → String → ResourceList q
increment_list q m name = some (λ n.
    if str_eq n name
    then some (q.parse_count (q.value (quantity_of q m name) + 1))
    else elim m [ none ↦ none | some known ↦ known n ])

-- Where the secret of the user data is mounted.
unfoldable pub user_mounts : Option String → List VolumeMount
user_mounts none = []
user_mounts (some s) = user_mount ∷ []

module _ {q : Quantities} where
  pub increment : Resources q → String → Resources q
  unfolding increment_list
  increment r name = record {
    requests = increment_list q r.requests name;
    limits = increment_list q r.limits name;
  }

  pub add_volume : String → PodVolumeSource → PodTemplate q → PodTemplate q
  add_volume name source pod = record pod {
    volumes = pod.volumes ++ record { name = name; source = source } ∷ [];
  }

  pub add_mount : VolumeMount → PodTemplate q → PodTemplate q
  add_mount mount pod = record pod { mounts = pod.mounts ++ mount ∷ [] }

  pub add_device : VolumeMount → PodTemplate q → PodTemplate q
  add_device device pod = record pod { devices = pod.devices ++ device ∷ [] }

  unfoldable pub add_init : InitContainer → PodTemplate q → PodTemplate q
  add_init c pod = record pod { init_containers = pod.init_containers ++ c ∷ [] }

  pub add_env : String → EnvValue → PodTemplate q → PodTemplate q
  add_env name value pod = record pod {
    env = pod.env ++ record { name = name; value = value } ∷ [];
  }

  pub add_resource : String → PodTemplate q → PodTemplate q
  unfolding increment
  add_resource name pod = record pod { resources = increment pod.resources name }

  -- A volume with an empty directory that the container mounts.
  pub add_mounted : String → PodVolumeSource → VolumeMount → PodTemplate q → PodTemplate q
  unfolding add_volume add_mount
  add_mounted name source mount pod = add_mount mount (add_volume name source pod)

  -- The pod before its parts are added. (Tolerations, affinity, probes, capabilities and pull
  -- secrets, which are copied or constant, are left out.)
  pub new_pod : Vm q → PodTemplate q
  new_pod vm = record {
    name = "";
    labels = vm.labels;
    annotations = vm.annotations;
    node_selector = vm.node_selector;
    volumes =
        record { name = "ch-vmm"; source = empty_dir }
        ∷ record { name = "hotplug-volumes"; source = empty_dir }
        ∷ [];
    init_containers = [];
    resources = vm.spec.resources;
    init_resources = vm.spec.resources;
    mounts =
        record { name = "ch-vmm"; path = "/var/run/ch-vmm" }
        ∷ record { name = "hotplug-volumes"; path = "/hotplug-volumes" }
        ∷ [];
    devices = [];
    env = [];
    apart_from = [];
  }

  pub add_devices : Vm q → PodTemplate q → PodTemplate q
  unfolding add_resource made_with
  add_devices vm pod =
      let held =
        add_resource "devices.quill.today/tun" (add_resource "devices.quill.today/kvm" pod) in
      record held { labels = made_with "quill.today/vm.name" vm.name held.labels }

  pub add_kernel : Vm q → PodTemplate q → PodTemplate q
  unfolding add_mounted add_init
  add_kernel vm pod =
      let mount = mount_of "virtmanager-kernel" in
      elim vm.spec.instance_spec.kernel [
        | none ↦ pod
        | some kernel ↦
            add_init
              (init_container "init-kernel" kernel.image [] ((mount.path <> "/vmlinux") ∷ [])
                (mount ∷ []))
              (add_mounted "virtmanager-kernel" empty_dir mount pod)
      ]

  pub add_hugepages : Vm q → PodTemplate q → PodTemplate q
  unfolding add_mounted
  add_hugepages vm pod = elim vm.spec.instance_spec.memory.hugepages [
    | none ↦ pod
    | some h ↦
        add_mounted "hugepages" huge_pages (record { name = "hugepages"; path = "/dev/hugepages" })
          pod
  ]

  -- A volume that an init container of its own fills.
  pub add_filled : String → String → List String → PodTemplate q → PodTemplate q
  unfolding add_mounted add_init
  add_filled name image args pod =
      add_init (init_container ("init-volume-" <> name) image [] args (mount_of name ∷ []))
        (add_mounted name empty_dir (mount_of name) pod)

  -- The init container of a `CloudInit` volume.
  unfoldable pub cloud_init_container :
      World q → Vm q → String → CloudInitVolumeSource → InitContainer
  unfolding data_of user_mounts
  cloud_init_container w vm name c =
      let meta = w.base64 ("instance-id: " <> vm.uid <> "\nlocal-hostname: " <> vm.name) in
      let (user, user_secret) =
        data_of w.base64 c.user_data c.user_data_base64 c.user_data_secret_name user_mount.path in
      let (network, network_secret) =
        data_of w.base64 c.network_data c.network_data_base64 c.network_data_secret_name
          network_mount.path in
      init_container ("init-volume-" <> name) w.prerunner_image ("virt-init-volume" ∷ [])
        ("cloud-init" ∷ meta ∷ user ∷ network ∷ ("/mnt/" <> name <> "/cloud-init.iso") ∷ [])
        (user_mounts user_secret ++ mount_of name ∷ [])

  pub add_user_secret : Option String → PodTemplate q → PodTemplate q
  unfolding add_volume
  add_user_secret none pod = pod
  add_user_secret (some s) pod = add_volume user_mount.name (secret s) pod

  pub add_network_secret : Option String → PodTemplate q → PodTemplate q
  unfolding add_mounted
  add_network_secret none pod = pod
  add_network_secret (some s) pod = add_mounted network_mount.name (secret s) network_mount pod

  -- The secret of the user data is mounted in the init container, that of the network data in the
  -- machine's container.
  unfoldable pub add_cloud_init :
      World q → Vm q → String → CloudInitVolumeSource → PodTemplate q → PodTemplate q
  unfolding data_of add_user_secret add_network_secret add_mounted add_init cloud_init_container
  add_cloud_init w vm name c pod =
      let user =
        data_of w.base64 c.user_data c.user_data_base64 c.user_data_secret_name user_mount.path in
      let network =
        data_of w.base64 c.network_data c.network_data_base64 c.network_data_secret_name
          network_mount.path in
      add_init (cloud_init_container w vm name c) (
        add_mounted name empty_dir (mount_of name)
          (add_network_secret network.1 (add_user_secret user.1 pod)))

  pub add_gpus : List Gpu → PodTemplate q → PodTemplate q
  unfolding add_resource
  add_gpus [] pod = pod
  add_gpus (g ∷ gpus) pod = add_gpus gpus (add_resource g.resource_name pod)

  -- The machine as its maps stand once the pod is made: `buildVMPod` writes through them.
  pub shared_vm : Vm q → PodTemplate q → Vm q
  unfolding through
  shared_vm vm pod = record vm {
    labels = through vm.labels pod.labels;
    annotations = through vm.annotations pod.annotations;
    node_selector = through vm.node_selector pod.node_selector;
    spec = record vm.spec {
      resources = record {
        requests = through vm.spec.resources.requests pod.resources.requests;
        limits = through vm.spec.resources.limits pod.resources.limits;
      };
    };
  }
