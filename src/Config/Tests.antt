-- ===== src/Config/Tests.antt =====
-- The base configuration over a concrete viper.
use go_platform_kit.Common.{
  ◌≡◌, refl, Option, none, some, List, [], ◌∷◌, ◌++◌, Text, text_eq, bytes, ◌==◌, is_empty,
  if◌then◌else◌, Unicode, to_lower,
}
use go_platform_kit.Broker.Publish.{Reply, ok}
use go_platform_kit.Config.{ViperOps}
use go_platform_kit.Config.Laws.{
  first_set, or_default, ViperLaws, tls_cert, key_of, name_of, loaded, bound, get-bind_broker,
}

abbrev ascii : Unicode
ascii = record { lower_wide = λ s. s; trim_wide = λ s. s }

-- The names that are bound to a key, its default, and the configuration file.
abbrev Bindings : Type 0
Bindings = (Text → List Text) × (Text → Option Text) × (Text → Option Text)

abbrev viper : ViperOps Bindings
viper = record {
  set_default =
      λ v k x. (v.0, (λ j. if to_lower ascii k == to_lower ascii j then some x else v.1 j), v.2);
  bind_env = λ v k name.
      (λ j. if to_lower ascii k == to_lower ascii j then v.0 j ++ name ∷ [] else v.0 j, v.1, v.2);
}

abbrev viper-ViperLaws : ViperLaws ascii viper
viper-ViperLaws = record {
  names = λ v k. v.0 k;
  default_of = λ v k. v.1 k;
  overridden = λ v env k. none;
  configured = λ v k. v.2 k;
  get = λ v env k. or_default (first_set env (v.0 k)) (or_default (v.2 k) (v.1 k));
  overridden_bound = λ v k name. refl;
  overridden_default = λ v k x. refl;
  configured_bound = λ v k name. refl;
  configured_default = λ v k x. refl;
  get_first = λ v env k. refl;
  names_bound = λ v k name j. refl;
  names_default = λ v k x j. refl;
  default_bound = λ v k name j. refl;
  default_set = λ v k x j. refl;
}

abbrev empty : Bindings
empty = (λ k. [], λ k. none, λ k. none)

abbrev secret_store : Text → Reply Text
secret_store name = ok (bytes "PEM")

abbrev nothing : Text
nothing = []

get-bind_broker_example :
    viper-ViperLaws.get
      (bound ascii viper viper-ViperLaws secret_store empty)
      (λ name. nothing)
      (key_of tls_cert)
    ≡ or_default none (
        if is_empty nothing
        then or_default none (or_default (loaded secret_store (name_of tls_cert)) none)
        else some nothing)
get-bind_broker_example =
    get-bind_broker ascii viper viper-ViperLaws secret_store empty (λ name. nothing) tls_cert refl
