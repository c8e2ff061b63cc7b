-- ===== src/Examples/Memory.antt =====
-- A cluster in memory, for the examples: the names of the objects that exist. An object that is read
-- has its name and namespace and is otherwise blank.
use nais_api.Creator.Network.{empty_service_spec}
use nais_api.Creator.Pod.{no_status}
use nais_api.Deleter.Laws.Steps.{Key}
use nais_api.Examples.Keys.{
  has, has-added, has-later, has-same, has-without, has-without_other, has-without_same,
  is_key-IsOther, without,
}
use nais_api.Kubernetes.Cluster.{Cluster, Contract, IsPresent, Presence, Reply}
use nais_api.Kubernetes.Objects.{
  Deployment, Kind, ObjectMeta, ObjectOf, TypeMeta, autoscalers, config_maps, deployments,
  ingresses, meta_of, role_bindings, secrets, service_accounts, services,
}
use nais_api.Prelude.{
  Bool, List, String, [], ap, false, if◌then◌else◌, inl, inr, none, refl, some, subst, true, ◌∙◌,
  ◌∷◌, ◌≡◌, ◌⊎◌,
}
use nais_api.Prelude.Int.{pos}
use nais_api.Prelude.Outcome.{GoError}

abbrev pub meta_named : String → String → ObjectMeta
meta_named namespace name = record {
  name = name;
  namespace = namespace;
  resource_version = "1";
  generation = pos 1;
  labels = none;
  annotations = none;
}

abbrev no_type : TypeMeta
no_type = record { kind = ""; api_version = "" }

abbrev pub blank_deployment : String → String → Deployment
blank_deployment ns n = record {
  type_meta = no_type;
  meta = meta_named ns n;
  spec = record {
    replicas = some (pos 3);
    selector = [];
    strategy = record { type = ""; max_unavailable = none; max_surge = none };
    progress_deadline_seconds = none;
    revision_history_limit = none;
    template = record {
      meta = meta_named ns n;
      spec = record {
        containers = [];
        init_containers = [];
        volumes = [];
        service_account_name = "";
        restart_policy = "";
        dns_policy = "";
      };
    };
  };
  status = no_status;
}

abbrev blank : (k : Kind) → String → String → ObjectOf k
blank services ns n = record {
  type_meta = no_type;
  meta = meta_named ns n;
  spec = empty_service_spec;
}
blank deployments ns n = blank_deployment ns n
blank secrets ns n = record {
  type_meta = no_type;
  meta = meta_named ns n;
  content = [];
  type = "Opaque";
}
blank config_maps ns n = record { meta = meta_named ns n; content = none }
blank autoscalers ns n = record {
  type_meta = no_type;
  meta = meta_named ns n;
  spec = record {
    min_replicas = none;
    max_replicas = pos 1;
    target_cpu = none;
    target_api_version = "";
    target_kind = "";
    target_name = "";
  };
}
blank ingresses ns n = record { type_meta = no_type; meta = meta_named ns n; rules = [] }
blank service_accounts ns n = record { type_meta = no_type; meta = meta_named ns n }
blank role_bindings ns n = record {
  meta = meta_named ns n;
  subjects = [];
  role_ref = record { kind = ""; name = "" };
}

abbrev missing : GoError
missing = record { text = "not found"; not_found = true }

abbrev pub memory : Cluster
memory = record {
  State = List Key;
  get = λ k ns n keys. if has (k, ns, n) keys then inl (blank k ns n) else inr missing;
  create = λ k ns o keys. (inl o, (k, ns, (meta_of k o).name) ∷ keys);
  update = λ k ns o keys. (inl o, (k, ns, (meta_of k o).name) ∷ keys);
  delete =
      λ k ns n keys. (if has (k, ns, n) keys then none else some missing, without (k, ns, n) keys);
}

-- What memory answers of a key depends only on whether it is there.
read : (k : Kind) → String → String → Bool → Reply (ObjectOf k)
read k ns n b = if b then inl (blank k ns n) else inr missing

missing_is_absent :
    (k : Kind) (ns n : String) (b : Bool) (e : GoError) → read k ns n b ≡ inr e → b ≡ false
unfolding read
missing_is_absent k ns n true e h = cc
missing_is_absent k ns n false e h = refl

pub memory-Contract : Contract memory
unfolding read
memory-Contract = record {
  Released = λ k ns n keys. has (k, ns, n) keys ≡ false;
  released_of_delete = λ k ns n s h. has-without_same (k, ns, n) s;
  released_of_missing = λ k ns n s e h h'. has-without_same (k, ns, n) s;
  released_of_get = λ k ns n s e h h'. missing_is_absent k ns n (has (k, ns, n) s) e h;
  released-delete = λ k ns n k' ns' n' s h. has-without (k, ns, n) (k', ns', n') s h;
  released-update = λ k ns n k' ns' o s h r.
      has-added (k, ns, n) (k', ns', (meta_of k' o).name) s
        (is_key-IsOther k ns n k' ns' (meta_of k' o).name h)
      ∙ r;
  released-create = λ k ns n k' ns' o s h r.
      has-added (k, ns, n) (k', ns', (meta_of k' o).name) s
        (is_key-IsOther k ns n k' ns' (meta_of k' o).name h)
      ∙ r;
  get-delete = λ k ns n k' ns' n' s h.
      ap (read k ns n)
        (has-without_other (k, ns, n) (k', ns', n') s (is_key-IsOther k ns n k' ns' n' h));
  get-update_other = λ k ns n k' ns' o s h. ap (read k ns n) (
      has-added (k, ns, n) (k', ns', (meta_of k' o).name) s
        (is_key-IsOther k ns n k' ns' (meta_of k' o).name h));
  get-create_other = λ k ns n k' ns' o s h. ap (read k ns n) (
      has-added (k, ns, n) (k', ns', (meta_of k' o).name) s
        (is_key-IsOther k ns n k' ns' (meta_of k' o).name h));
}

blank-name : (k : Kind) (ns n : String) → (meta_of k (blank k ns n)).name ≡ n
blank-name services ns n = refl
blank-name deployments ns n = refl
blank-name secrets ns n = refl
blank-name config_maps ns n = refl
blank-name autoscalers ns n = refl
blank-name ingresses ns n = refl
blank-name service_accounts ns n = refl
blank-name role_bindings ns n = refl

name-read :
    (k : Kind) (ns n : String) (b : Bool) (o : ObjectOf k)
    → read k ns n b ≡ inl o
    → (b ≡ true) × ((meta_of k o).name ≡ n)
unfolding read
name-read k ns n true o h =
    (refl, subst (λ x. (meta_of k x).name ≡ n) (inl-inj h) (blank-name k ns n))
  where
    inl-inj : {A B : Type 0} {a b : A} → Path (A ⊎ B) (inl a) (inl b) → a ≡ b
    inl-inj p = cc
name-read k ns n false o h = cc

read-IsPresent :
    (k : Kind) (ns n : String) (keys : List Key)
    → has (k, ns, n) keys ≡ true
    → IsPresent memory k ns n keys
read-IsPresent k ns n keys h = (blank k ns n, rw h refl)

IsPresent-later :
    (k : Kind) (ns n : String) (key : Key) (keys : List Key)
    → IsPresent memory k ns n keys
    → IsPresent memory k ns n (key ∷ keys)
unfolding read
IsPresent-later k ns n key keys (o, there) =
    read-IsPresent k ns n (key ∷ keys)
      (has-later (k, ns, n) key keys (name-read k ns n (has (k, ns, n) keys) o there).0)

pub memory-Presence : Presence memory
unfolding read
memory-Presence = record {
  name_of_get = λ k ns n o s h. (name-read k ns n (has (k, ns, n) s) o h).1;
  present_of_create = λ k ns o o' s h.
      let n = (meta_of k o).name in read-IsPresent k ns n ((k, ns, n) ∷ s) (has-same (k, ns, n) s);
  present_of_update = λ k ns o o' s h.
      let n = (meta_of k o).name in read-IsPresent k ns n ((k, ns, n) ∷ s) (has-same (k, ns, n) s);
  present-create = λ k ns n k' ns' o s h. IsPresent-later k ns n (k', ns', (meta_of k' o).name) s h;
  present-update = λ k ns n k' ns' o s h. IsPresent-later k ns n (k', ns', (meta_of k' o).name) s h;
}
