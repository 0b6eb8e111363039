-- ===== src/Correlation/Tests.antt =====
-- One request at concrete headers.
use go_platform_kit.Common.{
  ◌≡◌, ◌↔◌, ◌≤◌, refl, true, Option, none, some, List, [], Text, text_eq, ◌==◌, bytes, Unicode,
  trim_space, length, lookup, All, if◌then◌else◌,
}
use go_platform_kit.Propagation.{
  AnyValue, Key, name, outside, value, header_correlation_id, header_app_instance_id,
  app_instance_request_value_name,
}
use go_platform_kit.Correlation.{
  Inbound, Bound, RequestContext, valid_id, are_valid_bytes, is_valid_byte, middleware,
  request_app_instance_id,
}
use go_platform_kit.Correlation.Laws.{IdByte, valid_id_iff}
use go_platform_kit.Correlation.Thread.{
  RequestContextLaws, Threaded, own_id, middleware-Threaded, app_instance_id-middleware,
}

abbrev ascii : Unicode
ascii = record { lower_wide = λ s. s; trim_wide = λ s. s }

abbrev read_values : List (Text × AnyValue) → Key → Option AnyValue
read_values values (name s) = lookup s values
read_values values _ = none

abbrev pub azugo_request : RequestContext
azugo_request = record { context_of = λ values. outside (read_values values) }

pub azugo_request-RequestContextLaws : RequestContextLaws azugo_request
unfolding value
azugo_request-RequestContextLaws = record {
  reads_name = λ values s. refl;
  no_correlation_key = λ values. refl;
  no_app_instance_key = λ values. refl;
}

valid_id_iff_example :
    (valid_id (bytes "req-7") ≡ true)
    ↔ ((1 ≤ length (bytes "req-7")) × (length (bytes "req-7") ≤ 128) × All IdByte (bytes "req-7"))
valid_id_iff_example = valid_id_iff (bytes "req-7")

-- The client sends an app instance id and no correlation id.
abbrev pub inbound : Inbound
inbound = record {
  header = λ h. if h == header_app_instance_id then bytes " phone-1" else [];
  request_id = bytes "01JXY2T9ZD";
  trace = some (bytes "t-1", bytes "s-1");
  is_recording = true;
}

abbrev pub nothing : Bound
nothing = record { user_values = []; response_header = []; log_fields = []; span_attributes = [] }

pub own_valid : valid_id (own_id (bytes "fresh") inbound) ≡ true
unfolding valid_id are_valid_bytes is_valid_byte bytes
own_valid = refl

middleware-Threaded_example :
    (cid : Text) × Threaded azugo_request azugo_request-RequestContextLaws ascii
      (bytes "fresh")
      inbound
      nothing
      cid
    × (valid_id cid ≡ true)
    × (cid ≡ (
        if valid_id (trim_space ascii (inbound.header header_correlation_id))
        then trim_space ascii (inbound.header header_correlation_id)
        else own_id (bytes "fresh") inbound))
middleware-Threaded_example =
    middleware-Threaded azugo_request azugo_request-RequestContextLaws ascii (bytes "fresh") inbound
      nothing own_valid

none_bound : lookup app_instance_request_value_name nothing.user_values ≡ none
unfolding lookup
none_bound = refl

app_instance_id-middleware_example :
    request_app_instance_id azugo_request
      (some (middleware ascii (bytes "fresh") inbound nothing).user_values)
    ≡ (if valid_id (trim_space ascii (inbound.header header_app_instance_id))
        then trim_space ascii (inbound.header header_app_instance_id)
        else [])
app_instance_id-middleware_example =
    app_instance_id-middleware azugo_request azugo_request-RequestContextLaws ascii (bytes "fresh")
      inbound nothing none_bound
