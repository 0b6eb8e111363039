-- ===== src/Config/Laws.antt =====
-- Where a value of the broker's section comes from.
use go_platform_kit.Common.{
  ◌≡◌, inl, inr, text_beq, refl, ◌∙◌, Bool, true, false, Option, none, some, List, [], ◌∷◌, ◌++◌,
  Text, text_eq, bytes, ◌==◌, is_empty, if◌then◌else◌, arith, Unicode, to_lower,
}
use go_platform_kit.Broker.Publish.{Reply, ok, failed}
use go_platform_kit.Broker.Dispatch.Branches.{Reply-cases}
use go_platform_kit.Config.{ViperOps, load_secret, load_secrets, bind_broker}

-- The first variable that is set to a text that is not empty.
unfoldable pub first_set : (env : Text → Text) → List Text → Option Text
first_set env [] = none
first_set env (name ∷ names) =
    let rest = first_set env names in if is_empty (env name) then rest else some (env name)

abbrev pub or_default : Option Text → Option Text → Option Text
or_default none d = d
or_default (some s) d = some s

-- What viper documents: keys do not depend on case. A value is looked for, in this order, in the
-- explicit sets, the flags and the key's automatic variable (`overridden`); in the variables that are
-- bound to the key, the first one that is not empty; in the configuration file and the key/value
-- store (`configured`); and in the defaults.
pub record ViperLaws {V : Type 0} (u : Unicode) (viper : ViperOps V) : Type 0 where
  pub names : V → Text → List Text
  pub default_of : V → Text → Option Text
  pub overridden : V → (env : Text → Text) → Text → Option Text
  pub configured : V → Text → Option Text
  pub get : V → (env : Text → Text) → Text → Option Text
  pub get_first :
      (v : V) (env : Text → Text) (k : Text)
      → get v env k
        ≡ or_default
            (overridden v env k)
            (or_default (first_set env (names v k)) (or_default (configured v k) (default_of v k)))
  pub overridden_bound :
      (v : V) (k name : Text) → overridden (viper.bind_env v k name) ≡ overridden v
  pub overridden_default :
      (v : V) (k x : Text) → overridden (viper.set_default v k x) ≡ overridden v
  pub configured_bound :
      (v : V) (k name : Text) → configured (viper.bind_env v k name) ≡ configured v
  pub configured_default :
      (v : V) (k x : Text) → configured (viper.set_default v k x) ≡ configured v
  pub names_bound :
      (v : V) (k name j : Text)
      → names (viper.bind_env v k name) j
        ≡ (if to_lower u k == to_lower u j then names v j ++ name ∷ [] else names v j)
  pub names_default : (v : V) (k x j : Text) → names (viper.set_default v k x) j ≡ names v j
  pub default_bound :
      (v : V) (k name j : Text) → default_of (viper.bind_env v k name) j ≡ default_of v j
  pub default_set :
      (v : V) (k x j : Text)
      → default_of (viper.set_default v k x) j
        ≡ (if to_lower u k == to_lower u j then some x else default_of v j)

-- The broker's secrets, with their keys below "broker" and their names.
pub data Secret : Type 0 where
  tls_cert tls_key tls_ca : Secret

abbrev pub key_of : Secret → Text
key_of tls_cert = bytes "broker" ++ bytes ".tls_cert"
key_of tls_key = bytes "broker" ++ bytes ".tls_key"
key_of tls_ca = bytes "broker" ++ bytes ".tls_ca"

abbrev pub name_of : Secret → Text
name_of tls_cert = bytes "BROKER_TLS_CERT"
name_of tls_key = bytes "BROKER_TLS_KEY"
name_of tls_ca = bytes "BROKER_TLS_CA"

-- What the secret store has under a name.
unfoldable pub loaded : (Text → Reply Text) → Text → Option Text
loaded load_remote_secret name = elim (load_remote_secret name) [
  | failed e ↦ none
  | ok secret ↦ if is_empty secret then none else some secret
]

module _ {V : Type 0} (u : Unicode) (viper : ViperOps V) (laws : ViperLaws u viper)
    (load_remote_secret : Text → Reply Text) where
  default-load_secret :
      (v : V) (k name j : Text)
      → laws.default_of (load_secret viper load_remote_secret v k name) j ≡ (
          if to_lower u k == to_lower u j
          then or_default (loaded load_remote_secret name) (laws.default_of v j)
          else laws.default_of v j)
  unfolding load_secret loaded
  default-load_secret v k name j = elim (Reply-cases (load_remote_secret name)) [
    | inl (e, bad) ↦ ground arith
    | inr (secret, good) ↦ ground (arith, laws.default_set v k secret j)
  ]

  names-load_secret :
      (v : V) (k name j : Text)
      → laws.names (load_secret viper load_remote_secret v k name) j ≡ laws.names v j
  unfolding load_secret
  names-load_secret v k name j = elim (Reply-cases (load_remote_secret name)) [
    | inl (e, bad) ↦ ground arith
    | inr (secret, good) ↦ ground (arith, laws.names_default v k secret j)
  ]

  abbrev pub bound : V → V
  bound v = bind_broker viper load_remote_secret (bytes "broker") v

  -- What neither a binding nor a default changes, the broker's `Bind` leaves as it is.
  module _ {A : Type 0} (seen : V → A)
      (seen_bound : (v : V) (k name : Text) → seen (viper.bind_env v k name) ≡ seen v)
      (seen_default : (v : V) (k x : Text) → seen (viper.set_default v k x) ≡ seen v) where
    seen-load_secret :
        (v : V) (k name : Text) → seen (load_secret viper load_remote_secret v k name) ≡ seen v
    unfolding load_secret
    seen-load_secret v k name = elim (Reply-cases (load_remote_secret name)) [
      | inl (e, bad) ↦ ground arith
      | inr (secret, good) ↦ ground (arith, seen_default v k secret)
    ]

    seen-bound : (v : V) → seen (bound v) ≡ seen v
    unfolding bind_broker load_secrets
    seen-bound v = simp (seen_bound, seen-load_secret)

  abbrev is_same : Secret → Secret → Bool
  is_same tls_cert tls_cert = true
  is_same tls_key tls_key = true
  is_same tls_ca tls_ca = true
  is_same _ _ = false

  keys_same : (s t : Secret) → (to_lower u (key_of s) == to_lower u (key_of t)) ≡ is_same s t
  unfolding to_lower bytes text_beq
  keys_same tls_cert tls_cert = refl
  keys_same tls_cert tls_key = refl
  keys_same tls_cert tls_ca = refl
  keys_same tls_key tls_cert = refl
  keys_same tls_key tls_key = refl
  keys_same tls_key tls_ca = refl
  keys_same tls_ca tls_cert = refl
  keys_same tls_ca tls_key = refl
  keys_same tls_ca tls_ca = refl

  abbrev url_key : Text
  url_key = bytes "broker" ++ bytes ".url"

  url_differs : (s : Secret) → (to_lower u url_key == to_lower u (key_of s)) ≡ false
  unfolding to_lower bytes text_beq
  url_differs tls_cert = refl
  url_differs tls_key = refl
  url_differs tls_ca = refl

  names-bound :
      (v : V) (s : Secret)
      → laws.names (bound v) (key_of s) ≡ laws.names v (key_of s) ++ name_of s ∷ []
  unfolding bind_broker load_secrets
  names-bound v tls_cert = simp (
    laws.names_bound,
    names-load_secret,
    keys_same tls_cert tls_cert,
    keys_same tls_key tls_cert,
    keys_same tls_ca tls_cert,
    url_differs tls_cert,
  )
  names-bound v tls_key = simp (
    laws.names_bound,
    names-load_secret,
    keys_same tls_cert tls_key,
    keys_same tls_key tls_key,
    keys_same tls_ca tls_key,
    url_differs tls_key,
  )
  names-bound v tls_ca = simp (
    laws.names_bound,
    names-load_secret,
    keys_same tls_cert tls_ca,
    keys_same tls_key tls_ca,
    keys_same tls_ca tls_ca,
    url_differs tls_ca,
  )

  default-bound :
      (v : V) (s : Secret)
      → laws.default_of (bound v) (key_of s)
        ≡ or_default (loaded load_remote_secret (name_of s)) (laws.default_of v (key_of s))
  unfolding bind_broker load_secrets
  default-bound v tls_cert = simp (
    laws.default_bound,
    default-load_secret,
    keys_same tls_cert tls_cert,
    keys_same tls_key tls_cert,
    keys_same tls_ca tls_cert,
  )
  default-bound v tls_key = simp (
    laws.default_bound,
    default-load_secret,
    keys_same tls_cert tls_key,
    keys_same tls_key tls_key,
    keys_same tls_ca tls_key,
  )
  default-bound v tls_ca = simp (
    laws.default_bound,
    default-load_secret,
    keys_same tls_cert tls_ca,
    keys_same tls_key tls_ca,
    keys_same tls_ca tls_ca,
  )

  -- With a viper that keeps its laws and has no variable for the key of a secret yet, what is read
  -- of it after the broker's `Bind` is what overrides the variables, or else the variable of the
  -- secret's name if that is not empty, or else what the configuration file or the key/value store
  -- has, or else what the secret store has loaded for the name, if it is not empty, or else the
  -- default from before.
  pub get-bind_broker :
      (v : V) (env : Text → Text) (s : Secret)
      → laws.names v (key_of s) ≡ []
      → laws.get (bound v) env (key_of s)
        ≡ or_default (laws.overridden v env (key_of s)) (
            if is_empty (env (name_of s))
            then or_default
                (laws.configured v (key_of s))
                (or_default (loaded load_remote_secret (name_of s)) (laws.default_of v (key_of s)))
            else some (env (name_of s)))
  unfolding first_set
  get-bind_broker v env s unbound =
      laws.get_first (bound v) env (key_of s)
      ∙ rw
          (
            names-bound v s,
            default-bound v s,
            unbound,
            seen-bound laws.overridden laws.overridden_bound laws.overridden_default v,
            seen-bound laws.configured laws.configured_bound laws.configured_default v,
          )
          (ground arith)
