-- ===== src/Creator/Pod/Volumes.antt =====
-- Containers that mount only volumes of their pod (api/resourcecreator.go).
use nais_api.Creator.Pod.{on_main}
use nais_api.Kubernetes.Objects.{Container, PodSpec, Volume, VolumeMount}
use nais_api.Prelude.{
  All, All-append, List, String, [], inl, inr, map, refl, subst, ◌++◌, ◌∷◌, ◌≡◌, ◌⊎◌,
}

-- A volume of the name is among the volumes.
abbrev pub HasVolume : String → List Volume → Type 0
HasVolume name [] = ⊥
HasVolume name (v ∷ vs) = (v.name ≡ name) ⊎ HasVolume name vs

abbrev pub HasItsVolumes : List Volume → Container → Type 0
HasItsVolumes volumes c = All (λ (m : VolumeMount). HasVolume m.name volumes) c.volume_mounts

-- Every container and every init container mounts only volumes that the pod has.
abbrev pub IsMounted : PodSpec → Type 0
IsMounted pod =
    All (HasItsVolumes pod.volumes) pod.containers
    × All (HasItsVolumes pod.volumes) pod.init_containers

pub All-map {ℓ κ κ'} :
    {A : Type ℓ} (P : A → Type κ) (Q : A → Type κ') (xs : List A)
    → ((x : A) → P x → Q x)
    → All P xs
    → All Q xs
All-map P Q [] f h = tt
All-map P Q (x ∷ xs) f h = (f x h.0, All-map P Q xs f h.1)

pub All-mapped {ℓ ℓ' κ κ'} :
    {A : Type ℓ} {B : Type ℓ'} (P : A → Type κ) (Q : B → Type κ') (g : A → B) (xs : List A)
    → ((x : A) → P x → Q (g x))
    → All P xs
    → All Q (map g xs)
All-mapped P Q g [] f h = tt
All-mapped P Q g (x ∷ xs) f h = (f x h.0, All-mapped P Q g xs f h.1)

pub All-on_main :
    (P Q : Container → Type 0) (g : Container → Container) (cs : List Container)
    → ((c : Container) → P c → Q c)
    → ((c : Container) → P c → Q (g c))
    → All P cs
    → All Q (on_main g cs)
All-on_main P Q g [] weaken f h = tt
All-on_main P Q g (c ∷ cs) weaken f h = (f c h.0, All-map P Q cs weaken h.1)

pub HasVolume-append :
    (name : String) (vs ws : List Volume) → HasVolume name vs → HasVolume name (vs ++ ws)
HasVolume-append name [] ws h = absurd h
HasVolume-append name (v ∷ vs) ws (inl e) = inl e
HasVolume-append name (v ∷ vs) ws (inr h) = inr (HasVolume-append name vs ws h)

pub HasVolume-last : (v : Volume) (vs : List Volume) → HasVolume v.name (vs ++ v ∷ [])
HasVolume-last v [] = inl refl
HasVolume-last v (w ∷ vs) = inr (HasVolume-last v vs)

pub HasItsVolumes-append :
    (vs ws : List Volume) (c : Container) → HasItsVolumes vs c → HasItsVolumes (vs ++ ws) c
HasItsVolumes-append vs ws c h =
    All-map (λ (m : VolumeMount). HasVolume m.name vs)
      (λ (m : VolumeMount). HasVolume m.name (vs ++ ws)) c.volume_mounts
      (λ m. HasVolume-append m.name vs ws) h

-- A container gets a mount of a volume that is added.
pub HasItsVolumes-mount :
    (v : Volume) (m : VolumeMount) (vs : List Volume) (c : Container)
    → v.name ≡ m.name
    → HasItsVolumes vs c
    → HasItsVolumes (vs ++ v ∷ []) (record c { volume_mounts = c.volume_mounts ++ m ∷ [] })
HasItsVolumes-mount v m vs c e h =
    All-append (λ (m : VolumeMount). HasVolume m.name (vs ++ v ∷ [])) c.volume_mounts (m ∷ [])
      (HasItsVolumes-append vs (v ∷ []) c h)
      (subst (λ name. HasVolume name (vs ++ v ∷ [])) e (HasVolume-last v vs), tt)
