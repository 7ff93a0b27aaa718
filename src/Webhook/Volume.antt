-- ===== src/Webhook/Volume.antt =====
-- pkg/webhooks/virtualmachine_webhook.go: the checks of a volume.
use ch_vmm.Prelude.{
  ℕ, ◌+◌, String, ◌≡◌, ◌↔◌, ◌≢◌, Bool, false, List, [], ◌∷◌, arith, if◌then◌else◌, eq_iff,
  ==-eq-false, ◌==◌, ltb,
}
use ch_vmm.Api.{
  ContainerDiskVolumeSource, CloudInitVolumeSource, ContainerRootfsVolumeSource,
  PersistentVolumeClaimVolumeSource, DataVolumeVolumeSource, VirtualDiskVmSource, VolumeSource,
  Volume,
}
use ch_vmm.Webhook.Field.{
  FieldPath, child, required, invalid, ErrorList, error, is_blank, when, join, on, tick, Decides,
  Decides-when, Decides-blank, Decides-append, Decides-nil, OnSome, Decides-on, OneOf, is_set,
  total, tick-total, Decides-OneOf, Decides-iff,
}

pub validate_container_disk : ContainerDiskVolumeSource → FieldPath → ErrorList
validate_container_disk s p =
    when (is_blank s.image) (error required (child "image" ∷ p) "container disk image must be set")

-- `if s.UserData != "" { count++ }`
abbrev given : String → ℕ
given t = if is_blank t then 0 else 1

given-zero_iff : (t : String) → (given t ≡ 0) ↔ (t ≡ "")
given-zero_iff t = ground (arith, eq_iff t "")

cloud_init_count : CloudInitVolumeSource → ℕ
cloud_init_count s =
    given s.user_data
    + given s.user_data_base64
    + given s.user_data_secret_name
    + given s.network_data
    + given s.network_data_base64
    + given s.network_data_secret_name

pub validate_cloud_init : CloudInitVolumeSource → FieldPath → ErrorList
validate_cloud_init s p =
    when (cloud_init_count s == 0)
      (error required p "at least one cloud-init data source must be set")

pub validate_container_rootfs : ContainerRootfsVolumeSource → FieldPath → ErrorList
validate_container_rootfs s p =
    when (is_blank s.image)
      (error required (child "image" ∷ p) "container rootfs image must be set")

pub validate_persistent_volume_claim : PersistentVolumeClaimVolumeSource → FieldPath → ErrorList
validate_persistent_volume_claim s p =
    when (is_blank s.claim_name)
      (error required (child "claimName" ∷ p) "persistent volume claim name must be set")

pub validate_data_volume : DataVolumeVolumeSource → FieldPath → ErrorList
validate_data_volume s p =
    when (is_blank s.volume_name)
      (error required (child "volumeName" ∷ p) "data volume name must be set")

pub validate_virtual_disk : VirtualDiskVmSource → FieldPath → ErrorList
validate_virtual_disk s p =
    when (is_blank s.virtual_disk_name)
      (error required (child "virtualDiskName" ∷ p) "virtual disk name must be set")

source_count : VolumeSource → ℕ
source_count s =
    tick s.container_disk
    + tick s.cloud_init
    + tick s.container_rootfs
    + tick s.persistent_volume_claim
    + tick s.data_volume
    + tick s.virtual_disk

abbrev pub source_flags : VolumeSource → List Bool
source_flags s =
    is_set s.container_disk
    ∷ is_set s.cloud_init
    ∷ is_set s.container_rootfs
    ∷ is_set s.persistent_volume_claim
    ∷ is_set s.data_volume
    ∷ is_set s.virtual_disk
    ∷ []

source_count-total : (s : VolumeSource) → source_count s ≡ total (source_flags s)
unfolding source_count
source_count-total s = omega (arith, tick-total {0})

pub validate_volume_source : VolumeSource → FieldPath → ErrorList
validate_volume_source s p = join (
    on s.container_disk (λ d. validate_container_disk d (child "containerDisk" ∷ p))
    ∷ on s.cloud_init (λ d. validate_cloud_init d (child "cloudInit" ∷ p))
    ∷ on s.container_rootfs (λ d. validate_container_rootfs d (child "containerRootfs" ∷ p))
    ∷ on s.persistent_volume_claim
        (λ d. validate_persistent_volume_claim d (child "persistentVolumeClaim" ∷ p))
    ∷ on s.data_volume (λ d. validate_data_volume d (child "dataVolume" ∷ p))
    ∷ on s.virtual_disk (λ d. validate_virtual_disk d (child "virtualDisk" ∷ p))
    ∷ when (source_count s == 0) (error required p "at least one volume source must be set")
    ∷ when (ltb 1 (source_count s)) (error invalid p "only one volume source can be set")
    ∷ [])

pub validate_volume : Volume → FieldPath → ErrorList
validate_volume v p = join (
    when (is_blank v.name) (error required (child "name" ∷ p) "volume name must be set")
    ∷ validate_volume_source v.source (child "volumeSource" ∷ p)
    ∷ [])

pub Decides-cloud_init :
    (s : CloudInitVolumeSource) (p : FieldPath)
    → Decides (validate_cloud_init s p) (
        ¬ (
          (s.user_data ≡ "")
          × (s.user_data_base64 ≡ "")
          × (s.user_data_secret_name ≡ "")
          × (s.network_data ≡ "")
          × (s.network_data_base64 ≡ "")
          × (s.network_data_secret_name ≡ "")))
unfolding validate_cloud_init cloud_init_count
Decides-cloud_init s p = Decides-iff (Decides-when (n == 0) _) (
  (λ h z. not_blank h (
      omega (
        arith,
        (given-zero_iff s.user_data).1 z.0,
        (given-zero_iff s.user_data_base64).1 z.1,
        (given-zero_iff s.user_data_secret_name).1 z.2,
        (given-zero_iff s.network_data).1 z.3,
        (given-zero_iff s.network_data_base64).1 z.4,
        (given-zero_iff s.network_data_secret_name).1 z.5,
      ))),
  (λ h. ==-eq-false n 0 (λ e. h (
    (given-zero_iff s.user_data).0 (omega arith),
    (given-zero_iff s.user_data_base64).0 (omega arith),
    (given-zero_iff s.user_data_secret_name).0 (omega arith),
    (given-zero_iff s.network_data).0 (omega arith),
    (given-zero_iff s.network_data_base64).0 (omega arith),
    (given-zero_iff s.network_data_secret_name).0 (omega arith),
  ))),
)
  where
    n : ℕ
    n = cloud_init_count s

    not_blank : (n == 0) ≡ false → n ≡ 0 → ⊥
    not_blank h e = ground arith

-- A volume source is well formed if exactly one of the six sources is given, with its name set.
pub record IsVolumeSource (s : VolumeSource) : Type 0 where
  pub one : OneOf (source_flags s)
  pub container_disk : OnSome (λ d. d.image ≢ "") s.container_disk
  pub cloud_init :
      OnSome
        (λ d. ¬ (
          (d.user_data ≡ "")
          × (d.user_data_base64 ≡ "")
          × (d.user_data_secret_name ≡ "")
          × (d.network_data ≡ "")
          × (d.network_data_base64 ≡ "")
          × (d.network_data_secret_name ≡ "")))
        s.cloud_init
  pub container_rootfs : OnSome (λ d. d.image ≢ "") s.container_rootfs
  pub persistent_volume_claim : OnSome (λ d. d.claim_name ≢ "") s.persistent_volume_claim
  pub data_volume : OnSome (λ d. d.volume_name ≢ "") s.data_volume
  pub virtual_disk : OnSome (λ d. d.virtual_disk_name ≢ "") s.virtual_disk

-- The checks of a volume source pass exactly for a well-formed one.
pub Decides-volume_source :
    (s : VolumeSource) (p : FieldPath) → Decides (validate_volume_source s p) (IsVolumeSource s)
unfolding validate_volume_source validate_container_disk validate_cloud_init
    validate_container_rootfs validate_persistent_volume_claim validate_data_volume
    validate_virtual_disk
Decides-volume_source s p =
    Decides-iff
      (Decides-append (Decides-on s.container_disk _ (λ d. Decides-blank d.image _)) (
        Decides-append (Decides-on s.cloud_init _ (λ d. Decides-cloud_init d _)) (
          Decides-append (Decides-on s.container_rootfs _ (λ d. Decides-blank d.image _)) (
            Decides-append
              (Decides-on s.persistent_volume_claim _ (λ d. Decides-blank d.claim_name _))
              (Decides-append (Decides-on s.data_volume _ (λ d. Decides-blank d.volume_name _)) (
                Decides-append
                  (Decides-on s.virtual_disk _ (λ d. Decides-blank d.virtual_disk_name _))
                  (Decides-OneOf (source_flags s) (source_count s) _ _ (source_count-total s))))))))
      (
        (λ h. record {
          container_disk = h.0;
          cloud_init = h.1.0;
          container_rootfs = h.1.1.0;
          persistent_volume_claim = h.1.1.1.0;
          data_volume = h.1.1.1.1.0;
          virtual_disk = h.1.1.1.1.1.0;
          one = h.1.1.1.1.1.1;
        }),
        (λ v. (
          v.container_disk,
          (
            v.cloud_init,
            (
              v.container_rootfs,
              (v.persistent_volume_claim, (v.data_volume, (v.virtual_disk, v.one))),
            ),
          ),
        )),
      )

pub record IsVolume (v : Volume) : Type 0 where
  pub named : v.name ≢ ""
  pub source : IsVolumeSource v.source

pub Decides-volume : (v : Volume) (p : FieldPath) → Decides (validate_volume v p) (IsVolume v)
unfolding validate_volume
Decides-volume v p =
    Decides-iff
      (Decides-append (Decides-blank v.name _)
        (Decides-append (Decides-volume_source v.source _) Decides-nil))
      ((λ h. record { named = h.0; source = h.1.0 }), (λ w. (w.named, (w.source, tt))))
