-- ===== src/Httpclient.antt =====
-- httpclient/httpclient.go: the headers of an outbound call. An option that sets a header is the
-- header's name and value; `Outbound` is a call of the framework.
pub mod Hops
mod Tests
use go_platform_kit.Common.{
  Bool, true, false, Option, none, some, List, [], ◌∷◌, ◌++◌, Text, text_eq, is_empty, insert,
  if◌then◌else◌,
}
use go_platform_kit.Propagation.{AnyValue, header_correlation_id, header_app_instance_id}
use go_platform_kit.Correlation.{RequestContext, id, request_app_instance_id}

abbrev header_option : Text → Text → List (Text × Text)
header_option header_name header_value =
    if is_empty header_value then [] else (header_name, header_value) ∷ []

module _ (framework : RequestContext) where
  -- `CorrelationOptions`; nil is the empty slice.
  unfoldable pub correlation_options : Option (List (Text × AnyValue)) → List (Text × Text)
  correlation_options request =
      header_option header_correlation_id (id request)
      ++ header_option header_app_instance_id (request_app_instance_id framework request)

  -- `SetCorrelationHeaders`, over the headers that are set already.
  unfoldable pub set_correlation_headers :
      Option (List (Text × AnyValue)) → List (Text × Text) → List (Text × Text)
  set_correlation_headers request headers =
      let cid = id request in
      let iid = request_app_instance_id framework request in
      let headers' = if is_empty cid then headers else insert header_correlation_id cid headers in
      if is_empty iid then headers' else insert header_app_instance_id iid headers'
