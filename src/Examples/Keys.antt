-- ===== src/Examples/Keys.antt =====
-- Lists of the names of objects, for the cluster of the examples.
use nais_api.Kubernetes.Cluster.{IsOther}
use nais_api.Kubernetes.Objects.{
  Kind, autoscalers, config_maps, deployments, ingresses, role_bindings, secrets, service_accounts,
  services,
}
use nais_api.Prelude.{
  Bool, Bool-cases, List, String, [], ap, arith, eq_iff, eqb, false, false≢true, if◌then◌else◌, inl,
  inr, or-eq_false, refl, sym, true, ℕ, ◌&&◌, ◌==◌, ◌||◌, ◌∙◌, ◌∷◌, ◌≡◌,
}

abbrev pub Key : Type 0
Key = Kind × String × String

-- The kinds by number, and back.
abbrev number_of : Kind → ℕ
number_of services = 0
number_of deployments = 1
number_of secrets = 2
number_of config_maps = 3
number_of autoscalers = 4
number_of ingresses = 5
number_of service_accounts = 6
number_of role_bindings = 7

abbrev kind_of : ℕ → Kind
kind_of n =
    if eqb n 0
    then services
    else if eqb n 1
    then deployments
    else if eqb n 2
    then secrets
    else if eqb n 3
    then config_maps
    else if eqb n 4
    then autoscalers
    else if eqb n 5
    then ingresses
    else if eqb n 6
    then service_accounts
    else role_bindings

kind_of-number_of : (k : Kind) → kind_of (number_of k) ≡ k
kind_of-number_of services = refl
kind_of-number_of deployments = refl
kind_of-number_of secrets = refl
kind_of-number_of config_maps = refl
kind_of-number_of autoscalers = refl
kind_of-number_of ingresses = refl
kind_of-number_of service_accounts = refl
kind_of-number_of role_bindings = refl

unfoldable pub is_key : Key → Key → Bool
is_key (k, ns, n) (k', ns', n') = eqb (number_of k) (number_of k') && (ns == ns' && n == n')

unfoldable pub has : Key → List Key → Bool
unfolding is_key
has key [] = false
has key (other ∷ keys) = is_key key other || has key keys

unfoldable pub without : Key → List Key → List Key
unfolding is_key
without key [] = []
without key (other ∷ keys) =
    let rest = without key keys in if is_key key other then rest else other ∷ rest

-- Two keys that differ are told apart.
pub is_key-IsOther :
    (k : Kind) (ns n : String) (k' : Kind) (ns' n' : String)
    → IsOther k ns n k' ns' n'
    → is_key (k, ns, n) (k', ns', n') ≡ false
unfolding is_key
is_key-IsOther k ns n k' ns' n' h = ground (
  arith,
  h,
  eq_iff ns ns',
  eq_iff n n',
  λ (p : number_of k ≡ number_of k').
      sym (kind_of-number_of k) ∙ ap kind_of p ∙ kind_of-number_of k',
)

pub has-without_same : (key : Key) (keys : List Key) → has key (without key keys) ≡ false
unfolding has without
has-without_same key [] = refl
has-without_same key (other ∷ keys) = elim (Bool-cases (is_key key other)) [
  | inl e ↦ rw e (has-without_same key keys)
  | inr e ↦ rw (e, e) (has-without_same key keys)
]

pub has-without :
    (key key' : Key) (keys : List Key) → has key keys ≡ false → has key (without key' keys) ≡ false
unfolding has without
has-without key key' [] h = refl
has-without key key' (other ∷ keys) h =
    let (here, later) = or-eq_false (is_key key other) (has key keys) h in
    let rest = has-without key key' keys later in
    elim (Bool-cases (is_key key' other)) [ inl e ↦ rw e rest | inr e ↦ rw (e, here) rest ]

is_key_trans : (a b c : Key) → is_key a b ≡ true → is_key c b ≡ true → is_key c a ≡ true
unfolding is_key
is_key_trans (k, ns, n) (k', ns', n') (k'', ns'', n'') p q = ground (
  arith,
  p,
  q,
  eq_iff ns ns',
  eq_iff n n',
  eq_iff ns'' ns',
  eq_iff n'' n',
  eq_iff ns'' ns,
  eq_iff n'' n,
)

pub has-without_other :
    (key key' : Key) (keys : List Key)
    → is_key key key' ≡ false
    → has key (without key' keys) ≡ has key keys
unfolding has without
has-without_other key key' [] h = refl
has-without_other key key' (other ∷ keys) h =
    let rest = has-without_other key key' keys h in
    elim (Bool-cases (is_key key' other)) [
      | inl e ↦ elim (Bool-cases (is_key key other)) [
        | inl d ↦ absurd (false≢true (sym h ∙ is_key_trans key' other key e d))
        | inr d ↦ rw (e, d) rest
      ]
      | inr e ↦ rw (e, rest) refl
    ]

pub has-added :
    (key key' : Key) (keys : List Key)
    → is_key key key' ≡ false
    → has key (key' ∷ keys) ≡ has key keys
unfolding has
has-added key key' keys h = rw h refl

is_key_refl : (key : Key) → is_key key key ≡ true
unfolding is_key
is_key_refl (k, ns, n) = ground (arith, eq_iff ns ns, eq_iff n n)

pub has-same : (key : Key) (keys : List Key) → has key (key ∷ keys) ≡ true
unfolding has
has-same key keys = rw (is_key_refl key) refl

pub has-later :
    (key key' : Key) (keys : List Key) → has key keys ≡ true → has key (key' ∷ keys) ≡ true
unfolding has
has-later key key' keys h = ground (arith, h)
