-- ===== src/Httpclient/Hops.antt =====
-- The ids along a chain of calls: each service forwards them, and the next one adopts them.
use go_platform_kit.Common.{
  ◌≡◌, refl, ap, ◌∙◌, Bool, true, false, Option, none, some, List, [], ◌∷◌, Text, text_eq, text_beq,
  text_beq_refl, bytes, Unicode, trim_space, trim_left, lookup, insert, if◌then◌else◌, option_or,
  arith, inl, inr, ◌⊎◌,
}
use go_platform_kit.Propagation.{
  AnyValue, header_correlation_id, header_app_instance_id, app_instance_request_value_name,
}
use go_platform_kit.Correlation.{
  valid_id, Inbound, Bound, middleware, id, RequestContext, request_app_instance_id,
}
use go_platform_kit.Correlation.Laws.{trim_space_id}
use go_platform_kit.Correlation.Thread.{
  RequestContextLaws, threaded, chosen_inbound, app_instance_id-middleware,
}
use go_platform_kit.Httpclient.{correlation_options, set_correlation_headers}

-- Options are applied one after the other.
unfoldable pub apply_headers : List (Text × Text) → List (Text × Text) → List (Text × Text)
apply_headers [] headers = headers
apply_headers ((header_name, header_value) ∷ options) headers =
    apply_headers options (insert header_name header_value headers)

-- The two ways to forward the ids set the same headers.
pub apply_headers-correlation_options :
    (framework : RequestContext) (request : Option (List (Text × AnyValue)))
    (headers : List (Text × Text))
    → apply_headers (correlation_options framework request) headers
      ≡ set_correlation_headers framework request headers
unfolding apply_headers correlation_options set_correlation_headers
apply_headers-correlation_options framework request headers = ground arith

headers_differ : text_beq header_correlation_id header_app_instance_id ≡ false
unfolding header_correlation_id header_app_instance_id bytes text_beq
headers_differ = refl

headers_differ_back : text_beq header_app_instance_id header_correlation_id ≡ false
unfolding header_correlation_id header_app_instance_id bytes text_beq
headers_differ_back = refl

-- A service on the way: its fresh id and what its framework and tracer give the request.
pub record Service : Type 0 where
  pub new_id : Text
  pub request_id : Text
  pub trace : Option (Text × Text)
  pub is_recording : Bool

module _ (framework : RequestContext) (laws : RequestContextLaws framework) (u : Unicode) where
  -- The headers of a new outbound request.
  abbrev pub forwarded : List (Text × AnyValue) → List (Text × Text)
  forwarded values = set_correlation_headers framework (some values) []

  -- What the next service gets.
  abbrev pub arrival : Service → List (Text × AnyValue) → Inbound
  arrival s values = record {
    header = λ header_name. option_or (lookup header_name (forwarded values)) [];
    request_id = s.request_id;
    trace = s.trace;
    is_recording = s.is_recording;
  }

  abbrev pub unbound : Bound
  unbound = record { user_values = []; response_header = []; log_fields = []; span_attributes = [] }

  -- The values that the next service binds.
  unfoldable pub next_hop : Service → List (Text × AnyValue) → List (Text × AnyValue)
  next_hop s values = (middleware u s.new_id (arrival s values) unbound).user_values

  unfoldable pub hops : List Service → List (Text × AnyValue) → List (Text × AnyValue)
  hops [] values = values
  hops (s ∷ path) values = hops path (next_hop s values)

  forwarded_id :
      (values : List (Text × AnyValue))
      → option_or (lookup header_correlation_id (forwarded values)) [] ≡ id (some values)
  unfolding set_correlation_headers lookup insert
  forwarded_id values =
      ground (arith, text_beq_refl header_correlation_id, headers_differ, headers_differ_back)

  forwarded_app_instance :
      (values : List (Text × AnyValue))
      → option_or (lookup header_app_instance_id (forwarded values)) []
        ≡ request_app_instance_id framework (some values)
  unfolding set_correlation_headers lookup insert
  forwarded_app_instance values =
      ground (arith, text_beq_refl header_app_instance_id, headers_differ, headers_differ_back)

  -- The app instance id is a valid id or absent.
  abbrev pub OptionalId : Text → Type 0
  OptionalId s = (valid_id s ≡ true) ⊎ (s ≡ [])

  kept_id :
      (s : Service) (values : List (Text × AnyValue))
      → valid_id (id (some values)) ≡ true
      → id (some (next_hop s values)) ≡ id (some values)
  unfolding next_hop
  kept_id s values valid =
      (threaded framework laws u s.new_id (arrival s values) unbound).bound
      ∙ chosen_inbound framework laws u s.new_id (arrival s values) unbound
      ∙ rw (forwarded_id values, trim_space_id u (id (some values)) valid, valid)

  nothing_bound : lookup app_instance_request_value_name unbound.user_values ≡ none
  unfolding lookup
  nothing_bound = refl

  accepted_again :
      (s : Text) → OptionalId s → (if valid_id (trim_space u s) then trim_space u s else []) ≡ s
  unfolding trim_space trim_left
  accepted_again s (inl valid) = rw (trim_space_id u s valid, valid)
  accepted_again s (inr absent) = rw absent (ground arith)

  kept_app_instance :
      (s : Service) (values : List (Text × AnyValue))
      → OptionalId (request_app_instance_id framework (some values))
      → request_app_instance_id framework (some (next_hop s values))
        ≡ request_app_instance_id framework (some values)
  unfolding next_hop
  kept_app_instance s values ok =
      app_instance_id-middleware framework laws u s.new_id (arrival s values) unbound nothing_bound
      ∙ rw (forwarded_app_instance values)
          (accepted_again (request_app_instance_id framework (some values)) ok)

  -- Along any path of services that forward the ids with a new request, the correlation id and the
  -- app instance id stay what they were at the first one, if there the correlation id is valid and
  -- the app instance id is valid or absent.
  pub hops_keep :
      (path : List Service) (values : List (Text × AnyValue))
      → valid_id (id (some values)) ≡ true
      → OptionalId (request_app_instance_id framework (some values))
      → (id (some (hops path values)) ≡ id (some values))
        × (request_app_instance_id framework (some (hops path values))
            ≡ request_app_instance_id framework (some values))
  unfolding hops
  hops_keep [] values valid ok = (refl, refl)
  hops_keep (s ∷ path) values valid ok =
      let cid = kept_id s values valid in
      let iid = kept_app_instance s values ok in
      let (cid', iid') = hops_keep path (next_hop s values) (ap valid_id cid ∙ valid) (rw iid ok) in
      (cid' ∙ cid, iid' ∙ iid)
