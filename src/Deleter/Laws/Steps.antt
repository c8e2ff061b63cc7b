-- ===== src/Deleter/Laws/Steps.antt =====
-- Each deletion releases its object, and releases nothing else (api/resourcedeleter.go).
use nais_api.Alerts.{
  alerts_config_map_name, alerts_config_map_namespace, remove_rules_from_config_map,
}
use nais_api.App.{Spec, resource_name}
use nais_api.Creator.Access.{create_or_update_resource, found, get_existing}
use nais_api.Deleter.{
  Deleted, Deletions, and_note, delete_config_map_rules, delete_found, delete_named, deletion_of,
  filter_not_found, or_return, remove_rules, rules_written,
}
use nais_api.Kubernetes.Cluster.{Cluster, Contract, Reply}
use nais_api.Kubernetes.Objects.{ConfigMap, Kind, ObjectOf, config_maps}
use nais_api.Prelude.{
  All, Bool-cases, List, Option, String, [], arith, inl, inr, none, refl, some, true, ◌==◌, ◌∷◌,
  ◌≡◌, ◌≢◌,
}
use nais_api.Prelude.Keeps.{Post, Post-continue}
use nais_api.Prelude.Outcome.{GoError, M, Outcome, err, ok, panic, ◌>>=◌}

-- A kind, a namespace and a name.
abbrev pub Key : Type 0
Key = Kind × String × String

module _ (c : Cluster) (api : Contract c) where
  abbrev pub ReleasedKey : c.State → Key → Type 0
  ReleasedKey s k = api.Released k.0 k.1 k.2 s

  -- The step releases its key if it reports no error, and the keys that were released stay so.
  abbrev Releases : Key → List Key → M c.State Deleted → c.State → Type 0
  Releases k keys m s =
      Post (m s) (λ d t. (d.1 ≡ none → ReleasedKey t k) × All (ReleasedKey t) keys)

  pub released-All :
      (k : Kind) (ns n : String) (s : c.State) (keys : List Key)
      → All (ReleasedKey s) keys
      → All (ReleasedKey (c.delete k ns n s).1) keys
  released-All k ns n s [] h = tt
  released-All k ns n s (j ∷ keys) h =
      (api.released-delete j.0 j.1 j.2 k ns n s h.0, released-All k ns n s keys h.1)

  pub delete_named-Releases :
      (k : Kind) (ns n fine message : String) (keys : List Key) (s : c.State)
      → All (ReleasedKey s) keys
      → Releases (k, ns, n) keys (delete_named c k ns n fine message) s
  unfolding filter_not_found
  delete_named-Releases k ns n fine message keys s h =
      (go (c.delete k ns n s).0 refl, released-All k ns n s keys h)
    where
      go :
          (e : Option GoError)
          → (c.delete k ns n s).0 ≡ e
          → (deletion_of fine message (c.delete k ns n s).0).1 ≡ none
          → api.Released k ns n (c.delete k ns n s).1
      go none p q = api.released_of_delete k ns n s p
      go (some e) p q = api.released_of_missing k ns n s e p (missing (rw p at q))
        where
          missing : (filter_not_found message e).1 ≡ none → e.not_found ≡ true
          missing q = ground arith

  pub delete_found-Releases :
      (k : Kind) (spec : Spec) (fine message : String) (keys : List Key) (s : c.State)
      → All (ReleasedKey s) keys
      → Post
          (delete_found c k spec fine message
            (get_existing c k (resource_name spec) spec.namespace s))
          (λ d t.
            (d.1 ≡ none → ReleasedKey t (k, spec.namespace, resource_name spec))
            × All (ReleasedKey t) keys)
  unfolding get_existing filter_not_found
  delete_found-Releases k spec fine message keys s h =
      go (c.get k spec.namespace (resource_name spec) s) refl
    where
      go :
          (reply : Reply (ObjectOf k))
          → c.get k spec.namespace (resource_name spec) s ≡ reply
          → Post
              (delete_found c k spec fine message
                (get_existing c k (resource_name spec) spec.namespace s))
              (λ d t.
                (d.1 ≡ none → ReleasedKey t (k, spec.namespace, resource_name spec))
                × All (ReleasedKey t) keys)
      go (inl o) p =
          rw (p, get_existing)
            (delete_named-Releases k spec.namespace (resource_name spec) fine message keys s h)
      go (inr e) p = elim (Bool-cases e.not_found) [
        | inl missing ↦
            rw (p, get_existing, missing)
              ((λ _. api.released_of_get k spec.namespace (resource_name spec) s e p missing), h)
        | inr other ↦ rw (p, get_existing, other) ((λ q. cc), h)
      ]

  -- Writing the config map releases nothing and keeps what is released of another kind.
  written-keeps :
      (m : ConfigMap) (keys : List Key) (s : c.State)
      → All (λ (k : Key). k.0 ≢ config_maps) keys
      → All (ReleasedKey s) keys
      → All
          (ReleasedKey (create_or_update_resource c config_maps m alerts_config_map_namespace s).1)
          keys
  unfolding create_or_update_resource
  written-keeps m [] s others h = tt
  written-keeps m (k ∷ keys) s others h = (
    elim (Bool-cases (m.meta.resource_version == "")) [
      | inl new ↦
          rw (new, create_or_update_resource)
            (api.released-create k.0 k.1 k.2 config_maps alerts_config_map_namespace m s
              (inl others.0) h.0)
      | inr old ↦
          rw (old, create_or_update_resource)
            (api.released-update k.0 k.1 k.2 config_maps alerts_config_map_namespace m s
              (inl others.0) h.0)
    ],
    written-keeps m keys s others.1 h.1,
  )

  rules_written-keeps :
      (keys : List Key) (r : Outcome ConfigMap × c.State)
      → All (ReleasedKey r.1) keys
      → Post (rules_written c r) (λ d t. All (ReleasedKey t) keys)
  rules_written-keeps keys (ok m, s) h = h
  rules_written-keeps keys (err e, s) h = h
  rules_written-keeps keys (panic, s) h = tt

  pub delete_config_map_rules-keeps :
      (spec : Spec) (keys : List Key) (s : c.State)
      → All (λ (k : Key). k.0 ≢ config_maps) keys
      → All (ReleasedKey s) keys
      → Post (delete_config_map_rules c spec s) (λ d t. All (ReleasedKey t) keys)
  unfolding delete_config_map_rules
  delete_config_map_rules-keeps spec keys s others h =
      go (found (c.get config_maps alerts_config_map_namespace alerts_config_map_name s))
    where
      go :
          (r : Outcome (Option ConfigMap))
          → Post (remove_rules c spec (r, s)) (λ d t. All (ReleasedKey t) keys)
      go (ok none) = tt
      go (ok (some m)) =
          rules_written-keeps keys _
            (written-keeps (remove_rules_from_config_map m spec) keys s others h)
      go (err e) = h
      go panic = tt

  -- The rest of the deletion after a step that may stop it.
  pub or_return-Post :
      (k : Key) (keys : List Key) (m : M c.State Deleted) (next : List String → M c.State Deletions)
      (results : List String) (s : c.State) (Q : c.State → Type 0)
      → Post (m s) (λ d t. (d.1 ≡ none → ReleasedKey t k) × All (ReleasedKey t) keys)
      → ((rs : List String) (t : c.State)
          → All (ReleasedKey t) (k ∷ keys)
          → Post (next rs t) (λ d u. d.1 ≡ none → Q u))
      → Post ((m >>= λ d. or_return c results d next) s) (λ d u. d.1 ≡ none → Q u)
  or_return-Post k keys m next results s Q h step =
      Post-continue (m s) (λ d. or_return c results d next) _ _ h go
    where
      go :
          (d : Deleted) (t : c.State)
          → (d.1 ≡ none → ReleasedKey t k) × All (ReleasedKey t) keys
          → Post (or_return c results d next t) (λ d u. d.1 ≡ none → Q u)
      go (r, none) t (released, kept) = step _ t (released refl, kept)
      go (r, some e) t h = λ q. cc

  -- The rest of the deletion after a step whose error is only noted.
  pub and_note-Post :
      (keys : List Key) (m : M c.State Deleted) (next : List String → M c.State Deletions)
      (results : List String) (s : c.State) (Q : c.State → Type 0)
      → Post (m s) (λ d t. All (ReleasedKey t) keys)
      → ((rs : List String) (t : c.State)
          → All (ReleasedKey t) keys
          → Post (next rs t) (λ d u. d.1 ≡ none → Q u))
      → Post ((m >>= λ d. and_note c results d next) s) (λ d u. d.1 ≡ none → Q u)
  and_note-Post keys m next results s Q h step =
      Post-continue (m s) (λ d. and_note c results d next) _ _ h go
    where
      go :
          (d : Deleted) (t : c.State)
          → All (ReleasedKey t) keys
          → Post (and_note c results d next t) (λ d u. d.1 ≡ none → Q u)
      go (r, none) t kept = step _ t kept
      go (r, some e) t kept = step _ t kept
