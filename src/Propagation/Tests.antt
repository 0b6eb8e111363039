-- ===== src/Propagation/Tests.antt =====
-- A row of bindings at concrete ids.
use go_platform_kit.Common.{◌≡◌, some, List, [], ◌∷◌, bytes}
use go_platform_kit.Propagation.{background, correlation_id, app_instance_id}
use go_platform_kit.Propagation.Laws.{
  Binding, bind_correlation, bind_app_instance, bind_all, last_correlation, last_app_instance,
  bind_all_lem,
}

abbrev bindings : List Binding
bindings =
    bind_correlation (bytes "c-1") ∷ bind_app_instance (bytes "i-1") ∷ bind_correlation [] ∷ []

bind_all_lem_example :
    (correlation_id (some (bind_all background bindings))
      ≡ last_correlation (correlation_id (some background)) bindings)
    × (app_instance_id (some (bind_all background bindings))
        ≡ last_app_instance (app_instance_id (some background)) bindings)
bind_all_lem_example = bind_all_lem bindings background
