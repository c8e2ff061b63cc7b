-- ===== src/Kubernetes/Cluster.antt =====
-- The client of the cluster, `kubernetes.Interface`, as a parameter, and what the API documents.
use nais_api.Kubernetes.Objects.{Kind, ObjectOf, meta_of}
use nais_api.Prelude.{Option, String, inl, inr, none, some, true, ◌≡◌, ◌≢◌, ◌⊎◌}
use nais_api.Prelude.Outcome.{GoError, Outcome, err, ok}

abbrev pub Reply : Type 0 → Type 0
Reply A = A ⊎ GoError

abbrev pub outcome : {A : Type 0} → Reply A → Outcome A
outcome (inl a) = ok a
outcome (inr e) = err e

-- Each call names a kind, a namespace and an object or its name. A read sees the state, a write
-- answers and leaves a state.
pub record Cluster : Type 1 where
  pub State : Type 0
  pub get : (k : Kind) → String → String → State → Reply (ObjectOf k)
  pub create : (k : Kind) → String → ObjectOf k → State → Reply (ObjectOf k) × State
  pub update : (k : Kind) → String → ObjectOf k → State → Reply (ObjectOf k) × State
  pub delete : (k : Kind) → String → String → State → Option GoError × State

-- Two keys that are not the same.
abbrev pub IsOther : Kind → String → String → Kind → String → String → Type 0
IsOther k ns n k' ns' n' = (k ≢ k') ⊎ (ns ≢ ns') ⊎ (n ≢ n')

-- What the API documents. `Released` says that an object is gone or that its deletion has been
-- accepted: with foreground propagation an accepted object is still readable for a while.
pub record Contract (c : Cluster) : Type 1 where
  pub Released : Kind → String → String → c.State → Type 0
  pub released_of_delete :
      (k : Kind) (ns n : String) (s : c.State)
      → (c.delete k ns n s).0 ≡ none
      → Released k ns n (c.delete k ns n s).1
  pub released_of_missing :
      (k : Kind) (ns n : String) (s : c.State) (e : GoError)
      → (c.delete k ns n s).0 ≡ some e
      → e.not_found ≡ true
      → Released k ns n (c.delete k ns n s).1
  pub released_of_get :
      (k : Kind) (ns n : String) (s : c.State) (e : GoError)
      → c.get k ns n s ≡ inr e
      → e.not_found ≡ true
      → Released k ns n s
  pub released-delete :
      (k : Kind) (ns n : String) (k' : Kind) (ns' n' : String) (s : c.State)
      → Released k ns n s
      → Released k ns n (c.delete k' ns' n' s).1
  pub released-update :
      (k : Kind) (ns n : String) (k' : Kind) (ns' : String) (o : ObjectOf k') (s : c.State)
      → IsOther k ns n k' ns' (meta_of k' o).name
      → Released k ns n s
      → Released k ns n (c.update k' ns' o s).1
  pub released-create :
      (k : Kind) (ns n : String) (k' : Kind) (ns' : String) (o : ObjectOf k') (s : c.State)
      → IsOther k ns n k' ns' (meta_of k' o).name
      → Released k ns n s
      → Released k ns n (c.create k' ns' o s).1
  pub get-delete :
      (k : Kind) (ns n : String) (k' : Kind) (ns' n' : String) (s : c.State)
      → IsOther k ns n k' ns' n'
      → c.get k ns n (c.delete k' ns' n' s).1 ≡ c.get k ns n s
  pub get-update_other :
      (k : Kind) (ns n : String) (k' : Kind) (ns' : String) (o : ObjectOf k') (s : c.State)
      → IsOther k ns n k' ns' (meta_of k' o).name
      → c.get k ns n (c.update k' ns' o s).1 ≡ c.get k ns n s
  pub get-create_other :
      (k : Kind) (ns n : String) (k' : Kind) (ns' : String) (o : ObjectOf k') (s : c.State)
      → IsOther k ns n k' ns' (meta_of k' o).name
      → c.get k ns n (c.create k' ns' o s).1 ≡ c.get k ns n s

-- The cluster has an object of this kind and name.
abbrev pub IsPresent : (c : Cluster) → Kind → String → String → c.State → Type 0
IsPresent c k ns n s = (o : ObjectOf k) × (c.get k ns n s ≡ inl o)

-- What the API documents of the objects that are there: a read answers with the object of the name that was
-- asked for, a write that answers with an object has stored it, and no write removes an object.
pub record Presence (c : Cluster) : Type 0 where
  pub name_of_get :
      (k : Kind) (ns n : String) (o : ObjectOf k) (s : c.State)
      → c.get k ns n s ≡ inl o
      → (meta_of k o).name ≡ n
  pub present_of_create :
      (k : Kind) (ns : String) (o o' : ObjectOf k) (s : c.State)
      → (c.create k ns o s).0 ≡ inl o'
      → IsPresent c k ns (meta_of k o).name (c.create k ns o s).1
  pub present_of_update :
      (k : Kind) (ns : String) (o o' : ObjectOf k) (s : c.State)
      → (c.update k ns o s).0 ≡ inl o'
      → IsPresent c k ns (meta_of k o).name (c.update k ns o s).1
  pub present-create :
      (k : Kind) (ns n : String) (k' : Kind) (ns' : String) (o : ObjectOf k') (s : c.State)
      → IsPresent c k ns n s
      → IsPresent c k ns n (c.create k' ns' o s).1
  pub present-update :
      (k : Kind) (ns n : String) (k' : Kind) (ns' : String) (o : ObjectOf k') (s : c.State)
      → IsPresent c k ns n s
      → IsPresent c k ns n (c.update k' ns' o s).1
