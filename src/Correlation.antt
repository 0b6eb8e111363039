-- ===== src/Correlation.antt =====
-- correlation/correlation.go: `ValidID`, `Middleware` and the accessors. What the framework and the
-- tracer give a request is a record of inputs; what the middleware sets, until it calls the next
-- handler, is the record that it returns. A copy of a string is the string.
pub mod Laws
pub mod Thread
pub mod Tests
use go_platform_kit.Common.{
  ℕ, ◌≤◌, Bool, true, false, ◌&&◌, ◌||◌, Option, none, some, List, [], ◌∷◌, ◌++◌, Text, text_eq,
  nat_eq, Comparable, ◌==◌, bytes, Unicode, trim_space, is_empty, length, ltb, leb, lookup, insert,
  if◌then◌else◌, option_or,
}
use go_platform_kit.Broker.Publish.{Ids, no_ids}
use go_platform_kit.Propagation.{
  AnyValue, text, as_text, Context, app_instance_id, header_correlation_id, header_app_instance_id,
  request_value_name, app_instance_request_value_name,
}

abbrev pub max_id_length : ℕ
max_id_length = 128

abbrev pub log_key_correlation_id : Text
log_key_correlation_id = bytes "correlation_id"

abbrev pub log_key_trace_id : Text
log_key_trace_id = bytes "trace_id"

abbrev pub log_key_span_id : Text
log_key_span_id = bytes "span_id"

abbrev pub log_key_app_instance_id : Text
log_key_app_instance_id = bytes "app_instance_id"

-- The `switch` of `ValidID` for one byte.
unfoldable pub is_valid_byte : ℕ → Bool
is_valid_byte c =
    if leb b'a' c && leb c b'z'
    then true
    else if leb b'A' c && leb c b'Z'
    then true
    else if leb b'0' c && leb c b'9'
    then true
    else c == b'.' || c == b'_' || c == b'-'

-- The loop of `ValidID`.
unfoldable pub are_valid_bytes : Text → Bool
are_valid_bytes [] = true
are_valid_bytes (c ∷ s) = let rest = are_valid_bytes s in if is_valid_byte c then rest else false

unfoldable pub valid_id : Text → Bool
valid_id s = if is_empty s || ltb max_id_length (length s) then false else are_valid_bytes s

-- What a request brings: a header's value or the empty text, the framework's id, the trace and span
-- of a valid span context, and whether the span records.
pub record Inbound : Type 0 where
  pub header : Text → Text
  pub request_id : Text
  pub trace : Option (Text × Text)
  pub is_recording : Bool

-- What the middleware leaves on the request for the next handler.
pub record Bound : Type 0 where
  pub user_values : List (Text × AnyValue)
  pub response_header : List (Text × Text)
  pub log_fields : List (Text × Text)
  pub span_attributes : List (Text × Text)

module _ (u : Unicode) where
  -- An inbound id, empty if it is not valid.
  unfoldable pub accept_id : Text → Text
  accept_id raw = let id = trim_space u raw in if valid_id id then id else []

  abbrev or_next : Text → Text → Text
  or_next s t = if is_empty s then t else s

  -- The correlation id of the request, with a fresh one at hand.
  unfoldable pub choose_id : (new_id : Text) → Inbound → Text
  choose_id new_id r =
      or_next (or_next (accept_id (r.header header_correlation_id)) r.request_id) new_id

  abbrev trace_fields : Option (Text × Text) → List (Text × Text)
  trace_fields none = []
  trace_fields (some (trace_id, span_id)) =
      (log_key_trace_id, trace_id) ∷ (log_key_span_id, span_id) ∷ []

  abbrev app_instance_fields : Text → List (Text × Text)
  app_instance_fields iid = if is_empty iid then [] else (log_key_app_instance_id, iid) ∷ []

  -- `Middleware`, over the values and headers that are set already.
  unfoldable pub middleware : (new_id : Text) → Inbound → Bound → Bound
  middleware new_id r before =
      let cid = choose_id new_id r in
      let iid = accept_id (r.header header_app_instance_id) in
      let values = insert request_value_name (text cid) before.user_values in
      record {
        user_values =
            if is_empty iid
            then values
            else insert app_instance_request_value_name (text iid) values;
        response_header = insert header_correlation_id cid before.response_header;
        log_fields =
            before.log_fields
            ++ ((log_key_correlation_id, cid) ∷ (trace_fields r.trace ++ app_instance_fields iid));
        span_attributes =
            if r.is_recording
            then before.span_attributes ++ ((log_key_correlation_id, cid) ∷ app_instance_fields iid)
            else before.span_attributes;
      }

-- `ID`; a nil request is `none`.
unfoldable pub id : Option (List (Text × AnyValue)) → Text
id none = []
id (some values) = option_or (as_text (lookup request_value_name values)) []

-- `FromContext`, with the trace and span of the request.
unfoldable pub from_context : Option (List (Text × AnyValue)) → Option (Text × Text) → Ids
from_context none trace = no_ids
from_context (some values) none = record {
  correlation_id = id (some values);
  trace_id = [];
  span_id = [];
}
from_context (some values) (some (trace_id, span_id)) = record {
  correlation_id = id (some values);
  trace_id = trace_id;
  span_id = span_id;
}

-- The framework's request as a context: what its `Value` gives is not code of the repository.
pub record RequestContext : Type 0 where
  pub context_of : List (Text × AnyValue) → Context

-- `AppInstanceID`; a nil request is `none`.
unfoldable pub request_app_instance_id : RequestContext → Option (List (Text × AnyValue)) → Text
request_app_instance_id framework none = app_instance_id none
request_app_instance_id framework (some values) =
    app_instance_id (some (framework.context_of values))
