-- ===== src/Httpclient/Tests.antt =====
-- A path of two services at concrete ids.
use go_platform_kit.Common.{
  ◌≡◌, refl, true, false, none, some, List, [], ◌∷◌, Text, text_eq, text_beq, bytes, Unicode,
  lookup, inl,
}
use go_platform_kit.Propagation.{
  AnyValue, text, value, app_instance_id, request_value_name, app_instance_request_value_name,
}
use go_platform_kit.Correlation.{
  valid_id, are_valid_bytes, is_valid_byte, id, request_app_instance_id,
}
use go_platform_kit.Correlation.Tests.{azugo_request, azugo_request-RequestContextLaws}
use go_platform_kit.Httpclient.Hops.{Service, OptionalId, hops, hops_keep}

abbrev ascii : Unicode
ascii = record { lower_wide = λ s. s; trim_wide = λ s. s }

abbrev values : List (Text × AnyValue)
values =
    (request_value_name, text (bytes "c-1"))
    ∷ (app_instance_request_value_name, text (bytes "i-1"))
    ∷ []

abbrev service : Text → Service
service new_id = record { new_id = new_id; request_id = []; trace = none; is_recording = false }

id_valid : valid_id (id (some values)) ≡ true
unfolding id lookup valid_id are_valid_bytes is_valid_byte bytes text_beq request_value_name
id_valid = refl

app_instance_valid :
    OptionalId azugo_request azugo_request-RequestContextLaws ascii
      (request_app_instance_id azugo_request (some values))
unfolding request_app_instance_id app_instance_id value lookup valid_id are_valid_bytes
    is_valid_byte bytes text_beq request_value_name app_instance_request_value_name
app_instance_valid = inl refl

abbrev path : List Service
path = service (bytes "b") ∷ service (bytes "c") ∷ []

hops_keep_example :
    (id (some (hops azugo_request azugo_request-RequestContextLaws ascii path values))
      ≡ id (some values))
    × (request_app_instance_id azugo_request
          (some (hops azugo_request azugo_request-RequestContextLaws ascii path values))
        ≡ request_app_instance_id azugo_request (some values))
hops_keep_example =
    hops_keep azugo_request azugo_request-RequestContextLaws ascii path values id_valid
      app_instance_valid
