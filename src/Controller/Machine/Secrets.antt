-- ===== src/Controller/Machine/Secrets.antt =====
-- Where the init container of a `CloudInit` volume finds the data that stand in secrets.
use mathlib.Core.Option
use ch_vmm.Prelude.{
  String, ◌<>◌, ◌≡◌, refl, ◌≢◌, Bool, true, false, not, ◌&&◌, List, [], ◌∷◌, ◌++◌, Option, none,
  some, arith, str_eq, eq_iff, if◌then◌else◌,
}
use ch_vmm.Api.{CloudInitVolumeSource}
use ch_vmm.Api.Quantity.{Quantities}
use ch_vmm.Webhook.Field.{is_blank}
use ch_vmm.Controller.Machine.{World, Vm, PodTemplate, InitContainer, VolumeMount}
use ch_vmm.Controller.Machine.Template.{
  mount_of, add_cloud_init, cloud_init_container, user_mounts, user_mount, network_mount, data_of,
  add_init,
}

-- Whether something is mounted under that name.
pub is_mounted : String → List VolumeMount → Bool
is_mounted name [] = false
is_mounted name (m ∷ ms) = if str_eq m.name name then true else is_mounted name ms

-- The last init container of a pod.
pub last_init : List InitContainer → Option InitContainer
last_init [] = none
last_init (c ∷ []) = some c
last_init (c ∷ cs) = last_init cs

last_init-snoc : (cs : List InitContainer) (c : InitContainer) → last_init (cs ++ c ∷ []) ≡ some c
unfolding last_init
last_init-snoc [] c = refl
last_init-snoc (d ∷ []) c = refl
last_init-snoc (d ∷ e ∷ cs) c = last_init-snoc (e ∷ cs) c

-- Whether data stand in a secret: they are not given as text.
pub in_secret : String → String → String → Bool
in_secret text encoded secret = is_blank text && is_blank encoded && not (is_blank secret)

secret-data_of :
    (base64 : String → String) (text encoded name path : String)
    → (data_of base64 text encoded name path).1
      ≡ (if in_secret text encoded name then some name else none)
unfolding data_of in_secret
secret-data_of base64 text encoded name path =
    split (is_blank text) (is_blank encoded) (is_blank name)
  where
    split :
        (t e n : Bool)
        → (if◌then◌else◌ {A = String × Option String} t
            (if e
              then (if n then ("", none) else (path <> "/value", some name))
              else (encoded, none))
            (base64 text, none)).1
          ≡ (if t && e && not n then some name else none)
    split true true true = refl
    split true true false = refl
    split true false n = refl
    split false e n = refl

is_mounted-user_mounts :
    (name wanted secret : String) (b : Bool)
    → name ≢ wanted
    → is_mounted wanted (user_mounts (if b then some secret else none) ++ mount_of name ∷ [])
      ≡ b && str_eq user_mount.name wanted
unfolding is_mounted user_mounts
is_mounted-user_mounts name wanted secret true h = ground (arith, eq_iff name wanted)
is_mounted-user_mounts name wanted secret false h = ground (arith, eq_iff name wanted)

module _ {q : Quantities} (w : World q) (vm : Vm q) (name : String) (c : CloudInitVolumeSource)
    (pod : PodTemplate q) where
  -- Whether the init container of the volume mounts something of that name.
  pub init_mounts : String → Option Bool
  init_mounts wanted =
      Option.map (λ i. is_mounted wanted i.mounts)
        (last_init (add_cloud_init w vm name c pod).init_containers)

  last_init-add_cloud_init :
      last_init (add_cloud_init w vm name c pod).init_containers
      ≡ some (cloud_init_container w vm name c)
  unfolding add_cloud_init add_init
  last_init-add_cloud_init = last_init-snoc _ _

  -- The init container of a `CloudInit` volume (of a name of its own) mounts the secret of the user
  -- data exactly if they stand in one. It never mounts that of the network data.
  pub add_cloud_init-mounts :
      name ≢ user_mount.name
      → name ≢ network_mount.name
      → (init_mounts user_mount.name
          ≡ some (in_secret c.user_data c.user_data_base64 c.user_data_secret_name))
        × (init_mounts network_mount.name ≡ some false)
  unfolding init_mounts cloud_init_container
  add_cloud_init-mounts h k =
      let standing = in_secret c.user_data c.user_data_base64 c.user_data_secret_name in
      rw
        (
          last_init-add_cloud_init,
          secret-data_of w.base64 c.user_data c.user_data_base64 c.user_data_secret_name
              user_mount.path,
        )
        (rw
          (
            is_mounted-user_mounts name user_mount.name c.user_data_secret_name standing h,
            is_mounted-user_mounts name network_mount.name c.user_data_secret_name standing k,
          )
          (both standing))
    where
      both :
          (b : Bool)
          → Path (Option Bool) (some (b && true)) (some b)
            × Path (Option Bool) (some (b && false)) (some false)
      both true = (refl, refl)
      both false = (refl, refl)
