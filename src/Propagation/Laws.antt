-- ===== src/Propagation/Laws.antt =====
-- What a context reads after any row of bindings.
use go_platform_kit.Common.{
  ◌≡◌, refl, ap, ◌∙◌, some, List, [], ◌∷◌, Text, is_empty, if◌then◌else◌, arith,
}
use go_platform_kit.Propagation.{
  key_eq, Context, value, with_correlation_id, with_app_instance_id, correlation_id,
  app_instance_id,
}

-- The calls of `WithCorrelationID` and `WithAppInstanceID`.
pub data Binding : Type 0 where
  bind_correlation : Text → Binding
  bind_app_instance : Text → Binding

-- One binding after the other.
unfoldable pub bind_all : Context → List Binding → Context
bind_all ctx [] = ctx
bind_all ctx (bind_correlation id ∷ bs) = bind_all (with_correlation_id ctx id) bs
bind_all ctx (bind_app_instance id ∷ bs) = bind_all (with_app_instance_id ctx id) bs

-- The last id of a kind that is not empty, or what was there before.
abbrev pub last_correlation : Text → List Binding → Text
last_correlation before [] = before
last_correlation before (bind_correlation id ∷ bs) =
    last_correlation (if is_empty id then before else id) bs
last_correlation before (bind_app_instance _ ∷ bs) = last_correlation before bs

abbrev pub last_app_instance : Text → List Binding → Text
last_app_instance before [] = before
last_app_instance before (bind_app_instance id ∷ bs) =
    last_app_instance (if is_empty id then before else id) bs
last_app_instance before (bind_correlation _ ∷ bs) = last_app_instance before bs

read_after_correlation :
    (ctx : Context) (id : Text)
    → (correlation_id (some (with_correlation_id ctx id))
        ≡ (if is_empty id then correlation_id (some ctx) else id))
      × (app_instance_id (some (with_correlation_id ctx id)) ≡ app_instance_id (some ctx))
unfolding correlation_id app_instance_id with_correlation_id value key_eq
read_after_correlation ctx id = (ground arith, ground arith)

read_after_app_instance :
    (ctx : Context) (id : Text)
    → (app_instance_id (some (with_app_instance_id ctx id))
        ≡ (if is_empty id then app_instance_id (some ctx) else id))
      × (correlation_id (some (with_app_instance_id ctx id)) ≡ correlation_id (some ctx))
unfolding correlation_id app_instance_id with_app_instance_id value key_eq
read_after_app_instance ctx id = (ground arith, ground arith)

-- After any row of calls that bind correlation ids and app instance ids, in any order, each of the
-- two reads gives the last id of its kind that is not empty, or what the first context gave.
pub bind_all_lem :
    (bs : List Binding) (ctx : Context)
    → (correlation_id (some (bind_all ctx bs)) ≡ last_correlation (correlation_id (some ctx)) bs)
      × (app_instance_id (some (bind_all ctx bs))
          ≡ last_app_instance (app_instance_id (some ctx)) bs)
unfolding bind_all
bind_all_lem [] ctx = (refl, refl)
bind_all_lem (bind_correlation id ∷ bs) ctx =
    let (cid, iid) = bind_all_lem bs (with_correlation_id ctx id) in
    let (set, kept) = read_after_correlation ctx id in
    (cid ∙ ap (λ s. last_correlation s bs) set, iid ∙ ap (λ s. last_app_instance s bs) kept)
bind_all_lem (bind_app_instance id ∷ bs) ctx =
    let (cid, iid) = bind_all_lem bs (with_app_instance_id ctx id) in
    let (set, kept) = read_after_app_instance ctx id in
    (cid ∙ ap (λ s. last_correlation s bs) kept, iid ∙ ap (λ s. last_app_instance s bs) set)
