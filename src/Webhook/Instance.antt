-- ===== src/Webhook/Instance.antt =====
-- pkg/webhooks/virtualmachine_webhook.go: the checks of a machine's instance.
use ch_vmm.Prelude.{
  ℕ, String, ◌≡◌, ◌≢◌, ◌⊎◌, false, ◌||◌, not, [], ◌∷◌, arith, if◌then◌else◌, ◌==◌, str_eq, eq_iff,
  All,
}
use ch_vmm.Api.{Cpu, Hugepages, Kernel, Disk, FileSystem, Gpu, Memory, Instance}
use ch_vmm.Api.Quantity.{Quantities}
use ch_vmm.Webhook.Field.{
  FieldPath, child, required, invalid, Error, ErrorList, error, is_blank, when, join, on, each,
  Decides, Decides-when, Decides-blank, Decides-required, Decides-append, Decides-nil, OnSome,
  Decides-on, Decides-each, Decides-iff,
}
use ch_vmm.Webhook.Network.{NetParsers, validate_interface, IsInterface, Decides-interface}

pub validate_cpu : Cpu → FieldPath → ErrorList
validate_cpu c p = join (
    when (c.sockets == 0) (error required (child "sockets" ∷ p) "sockets must be greater than 0")
    ∷ when (c.cores_per_socket == 0)
        (error required (child "coresPerSocket" ∷ p) "coresPerSocket must be greater than 0")
    ∷ [])

pub validate_hugepages : Hugepages → FieldPath → ErrorList
validate_hugepages h p =
    let at = child "pageSize" ∷ child "hugepages" ∷ p in
    if is_blank h.page_size
    then error required at "hugepages pageSize must be set" ∷ []
    else when (not (str_eq h.page_size "2Mi" || str_eq h.page_size "1Gi"))
        (error invalid at "hugepages pageSize must be 2Mi or 1Gi")

pub validate_kernel : Kernel → FieldPath → ErrorList
validate_kernel k p =
    when (is_blank k.image) (error required (child "image" ∷ p) "kernel image must be set")

pub validate_disk : Disk → FieldPath → ErrorList
validate_disk d p =
    when (is_blank d.name) (error required (child "name" ∷ p) "disk name must be set")

-- The check for a nil pointer never fires: the loop passes the address of its variable.
pub validate_gpu : Gpu → FieldPath → ErrorList
validate_gpu g p =
    when (is_blank g.resource_env_name) (error required (child "resourceEnvName" ∷ p) "")

pub validate_file_system : FileSystem → FieldPath → ErrorList
validate_file_system f p =
    when (is_blank f.name) (error required (child "name" ∷ p) "filesystem name must be set")

module _ (q : Quantities) where
  open q use {Quantity, is_zero}

  pub validate_memory : Memory q → FieldPath → ErrorList
  validate_memory m p = join (
      when (is_zero m.size) (error required (child "size" ∷ p) "memory size must be greater than 0")
      ∷ on m.hugepages (λ h. validate_hugepages h p)
      ∷ [])

  pub validate_instance : NetParsers → Instance q → FieldPath → ErrorList
  validate_instance net i p = join (
      validate_cpu i.cpu (child "cpu" ∷ p)
      ∷ validate_memory i.memory (child "memory" ∷ p)
      ∷ on i.kernel (λ k. validate_kernel k (child "kernel" ∷ p))
      ∷ each validate_disk (child "disks" ∷ p) 0 i.disks
      ∷ each validate_file_system (child "filesystems" ∷ p) 0 i.file_systems
      ∷ each (validate_interface net) (child "interfaces" ∷ p) 0 i.interfaces
      ∷ each validate_gpu (child "gpus" ∷ p) 0 i.gpus
      ∷ [])

pub record IsCpu (c : Cpu) : Type 0 where
  pub sockets : c.sockets ≢ 0
  pub cores_per_socket : c.cores_per_socket ≢ 0

pub Decides-positive : (n : ℕ) (e : Error) → Decides (when (n == 0) e) (n ≢ 0)
Decides-positive n e = ground arith

pub Decides-cpu : (c : Cpu) (p : FieldPath) → Decides (validate_cpu c p) (IsCpu c)
unfolding validate_cpu
Decides-cpu c p =
    Decides-iff
      (Decides-append (Decides-positive c.sockets _)
        (Decides-append (Decides-positive c.cores_per_socket _) Decides-nil))
      (
        (λ h. record { sockets = h.0; cores_per_socket = h.1.0 }),
        (λ v. (v.sockets, (v.cores_per_socket, tt))),
      )

abbrev pub IsPageSize : String → Type 0
IsPageSize s = (s ≡ "2Mi") ⊎ (s ≡ "1Gi")

IsPageSize-iff :
    (s : String) (e : Error)
    → Decides (when (not (str_eq s "2Mi" || str_eq s "1Gi")) e) (IsPageSize s)
IsPageSize-iff s e = ground (arith, eq_iff s "2Mi", eq_iff s "1Gi")

page_size-given : (s : String) → IsPageSize s → s ≢ ""
page_size-given s h = ground (arith, eq_iff s "", eq_iff "2Mi" "", eq_iff "1Gi" "")

Decides-hugepages :
    (h : Hugepages) (p : FieldPath) → Decides (validate_hugepages h p) (IsPageSize h.page_size)
unfolding validate_hugepages
Decides-hugepages h p =
    Decides-iff (Decides-required h.page_size _ (IsPageSize-iff h.page_size _))
      ((λ v. v.1), (λ v. (page_size-given h.page_size v, v)))

Decides-disk : (d : Disk) (p : FieldPath) → Decides (validate_disk d p) (d.name ≢ "")
unfolding validate_disk
Decides-disk d p = Decides-blank d.name _

Decides-file_system :
    (f : FileSystem) (p : FieldPath) → Decides (validate_file_system f p) (f.name ≢ "")
unfolding validate_file_system
Decides-file_system f p = Decides-blank f.name _

Decides-gpu : (g : Gpu) (p : FieldPath) → Decides (validate_gpu g p) (g.resource_env_name ≢ "")
unfolding validate_gpu
Decides-gpu g p = Decides-blank g.resource_env_name _

module _ (q : Quantities) where
  open q use {Quantity, is_zero}

  pub record IsInstance (net : NetParsers) (i : Instance q) : Type 0 where
    pub cpu : IsCpu i.cpu
    pub memory : is_zero i.memory.size ≡ false
    pub hugepages : OnSome (λ h. IsPageSize h.page_size) i.memory.hugepages
    pub kernel : OnSome (λ k. k.image ≢ "") i.kernel
    pub disks : All (λ d. d.name ≢ "") i.disks
    pub file_systems : All (λ f. f.name ≢ "") i.file_systems
    pub interfaces : All (IsInterface net) i.interfaces
    pub gpus : All (λ g. g.resource_env_name ≢ "") i.gpus

  -- The checks of an instance pass exactly for a well-formed one.
  pub Decides-instance :
      (net : NetParsers) (i : Instance q) (p : FieldPath)
      → Decides (validate_instance q net i p) (IsInstance net i)
  unfolding validate_instance validate_memory validate_kernel
  Decides-instance net i p =
      Decides-iff
        (Decides-append (Decides-cpu i.cpu _) (
          Decides-append
            (Decides-append (Decides-when (is_zero i.memory.size) _) (
              Decides-append (Decides-on i.memory.hugepages _ (λ h. Decides-hugepages h _))
                Decides-nil))
            (Decides-append (Decides-on i.kernel _ (λ k. Decides-blank k.image _)) (
              Decides-append (Decides-each validate_disk (child "disks" ∷ p) 0 i.disks Decides-disk)
                (Decides-append
                  (Decides-each validate_file_system (child "filesystems" ∷ p) 0 i.file_systems
                    Decides-file_system)
                  (Decides-append
                    (Decides-each (validate_interface net) (child "interfaces" ∷ p) 0 i.interfaces
                      (Decides-interface net))
                    (Decides-append
                      (Decides-each validate_gpu (child "gpus" ∷ p) 0 i.gpus Decides-gpu)
                      Decides-nil)))))))
        (
          (λ h. record {
            cpu = h.0;
            memory = h.1.0.0;
            hugepages = h.1.0.1.0;
            kernel = h.1.1.0;
            disks = h.1.1.1.0;
            file_systems = h.1.1.1.1.0;
            interfaces = h.1.1.1.1.1.0;
            gpus = h.1.1.1.1.1.1.0;
          }),
          (λ v. (
            v.cpu,
            (
              (v.memory, (v.hugepages, tt)),
              (v.kernel, (v.disks, (v.file_systems, (v.interfaces, (v.gpus, tt))))),
            ),
          )),
        )
