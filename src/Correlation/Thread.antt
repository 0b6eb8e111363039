-- ===== src/Correlation/Thread.antt =====
-- The thread of one request: which ids the middleware binds, and where they go.
use go_platform_kit.Common.{
  ◌≡◌, refl, ◌∙◌, true, false, none, some, List, [], ◌∷◌, ◌++◌, Text, text_eq, text_beq,
  text_beq_refl, bytes, Unicode, trim_space, is_empty, lookup, insert, lookup-insert, if◌then◌else◌,
  arith,
}
use go_platform_kit.Propagation.{
  AnyValue, text, header_correlation_id, header_app_instance_id, request_value_name,
  app_instance_request_value_name, value, name, correlation_key, app_instance_key, app_instance_id,
  correlation_id,
}
use go_platform_kit.Correlation.{
  valid_id, Inbound, Bound, accept_id, choose_id, middleware, id, RequestContext,
  request_app_instance_id, log_key_correlation_id,
}

-- What the framework documents of its request as a context: a string reads the user value of that
-- name, and the request itself has no value for the keys of the package propagation.
pub record RequestContextLaws (framework : RequestContext) : Type 0 where
  pub reads_name :
      (values : List (Text × AnyValue)) (s : Text)
      → value (framework.context_of values) (name s) ≡ lookup s values
  pub no_correlation_key :
      (values : List (Text × AnyValue)) → value (framework.context_of values) correlation_key ≡ none
  pub no_app_instance_key :
      (values : List (Text × AnyValue))
      → value (framework.context_of values) app_instance_key ≡ none

names_differ : text_beq request_value_name app_instance_request_value_name ≡ false
unfolding request_value_name app_instance_request_value_name bytes text_beq
names_differ = refl

names_differ_back : text_beq app_instance_request_value_name request_value_name ≡ false
unfolding request_value_name app_instance_request_value_name bytes text_beq
names_differ_back = refl

-- The id that the service would give itself.
abbrev pub own_id : Text → Inbound → Text
own_id new_id r = if is_empty r.request_id then new_id else r.request_id

module _ (framework : RequestContext) (laws : RequestContextLaws framework) (u : Unicode)
    (new_id : Text) (r : Inbound) (before : Bound) where
  abbrev pub after : Bound
  after = middleware u new_id r before

  -- One id, `cid`, is read from the request by both accessors, is echoed in the response, and stands
  -- first of what is added to the log fields and, if the span records, to the span's attributes.
  pub record Threaded (cid : Text) : Type 0 where
    pub bound : id (some after.user_values) ≡ cid
    pub carried : correlation_id (some (framework.context_of after.user_values)) ≡ cid
    pub echoed : lookup header_correlation_id after.response_header ≡ some cid
    pub logged :
        (rest : List (Text × Text)) × (after.log_fields
          ≡ before.log_fields ++ (log_key_correlation_id, cid) ∷ rest)
    pub traced :
        (rest : List (Text × Text)) × (after.span_attributes ≡ (
          if r.is_recording
          then before.span_attributes ++ (log_key_correlation_id, cid) ∷ rest
          else before.span_attributes))

  bound_value : lookup request_value_name after.user_values ≡ some (text (choose_id u new_id r))
  unfolding middleware
  bound_value = ground (
    arith,
    lookup-insert request_value_name request_value_name (text (choose_id u new_id r))
        before.user_values,
    lookup-insert app_instance_request_value_name request_value_name
        (text (accept_id u (r.header header_app_instance_id)))
        (insert request_value_name (text (choose_id u new_id r)) before.user_values),
    text_beq_refl request_value_name,
    names_differ_back,
  )

  bound_app_instance :
      lookup app_instance_request_value_name before.user_values ≡ none
      → lookup app_instance_request_value_name after.user_values ≡ (
          if is_empty (accept_id u (r.header header_app_instance_id))
          then none
          else some (text (accept_id u (r.header header_app_instance_id))))
  unfolding middleware
  bound_app_instance unset = ground (
    arith,
    lookup-insert request_value_name app_instance_request_value_name (text (choose_id u new_id r))
        before.user_values,
    lookup-insert app_instance_request_value_name app_instance_request_value_name
        (text (accept_id u (r.header header_app_instance_id)))
        (insert request_value_name (text (choose_id u new_id r)) before.user_values),
    text_beq_refl app_instance_request_value_name,
    names_differ,
  )

  -- The chosen id is threaded.
  pub threaded : Threaded (choose_id u new_id r)
  unfolding middleware id correlation_id
  threaded = record {
    bound = rw bound_value;
    carried = rw (laws.no_correlation_key, laws.reads_name, bound_value);
    echoed =
        lookup-insert header_correlation_id header_correlation_id (choose_id u new_id r)
          before.response_header
        ∙ rw (text_beq_refl header_correlation_id);
    logged = (_, refl);
    traced = (_, refl);
  }

  chosen_valid : valid_id (own_id new_id r) ≡ true → valid_id (choose_id u new_id r) ≡ true
  unfolding choose_id accept_id
  chosen_valid own = ground arith

  pub chosen_inbound : choose_id u new_id r ≡ (
      if valid_id (trim_space u (r.header header_correlation_id))
      then trim_space u (r.header header_correlation_id)
      else own_id new_id r)
  unfolding choose_id accept_id valid_id
  chosen_inbound = ground arith

  -- Where the framework's id, or else the fresh one, is a valid id, the request gets one valid
  -- correlation id: the inbound header's without the space around it if that is valid, else the
  -- service's own. It is what both accessors read, and it is echoed, logged and put on the span.
  pub middleware-Threaded :
      valid_id (own_id new_id r) ≡ true
      → (cid : Text) × Threaded cid
        × (valid_id cid ≡ true)
        × (cid ≡ (
            if valid_id (trim_space u (r.header header_correlation_id))
            then trim_space u (r.header header_correlation_id)
            else own_id new_id r))
  middleware-Threaded own = (choose_id u new_id r, threaded, chosen_valid own, chosen_inbound)

  -- The app instance id that a request reads is the inbound header's without the space around it if
  -- that is a valid id, and else empty, if none was bound before: it is never minted.
  pub app_instance_id-middleware :
      lookup app_instance_request_value_name before.user_values ≡ none
      → request_app_instance_id framework (some after.user_values) ≡ (
          if valid_id (trim_space u (r.header header_app_instance_id))
          then trim_space u (r.header header_app_instance_id)
          else [])
  unfolding request_app_instance_id app_instance_id accept_id valid_id
  app_instance_id-middleware unset =
      rw (laws.no_app_instance_key, laws.reads_name, bound_app_instance unset) (ground arith)
