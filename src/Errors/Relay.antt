-- ===== src/Errors/Relay.antt =====
-- errors/problem.go: `Relay` and `boundChain`.
pub mod Chain
use go_platform_kit.Common.{
  ℕ, ◌+◌, ◌-◌, Bool, true, false, Option, none, some, List, [], ◌∷◌, ◌++◌, Text, bytes, Unicode,
  is_empty, length, take, drop, leb, if◌then◌else◌,
}
use go_platform_kit.Errors.Registry.{Registry}
use go_platform_kit.Errors.Problem.{Problem, Hop, max_chain_hops, with_status, with_source}
use go_platform_kit.Errors.Taxonomy.{Framework}
use go_platform_kit.Errors.Envelope.{new_problem}

-- The marker of a hop that stands for the omitted ones.
abbrev pub marker : ℕ → Hop
marker n = record { service = []; code = []; status = 0; elided = n }

unfoldable pub bound_chain : List Hop → List Hop
bound_chain chain =
    let tail = max_chain_hops - 2 in
    let elided = length chain - 1 - tail in
    if leb (length chain) max_chain_hops
    then chain
    else take 1 chain ++ (marker elided ∷ drop (length chain - tail) chain)

-- The chain to extend: the downstream's, or its origin where it has none.
unfoldable pub seed_chain : Problem → List Hop
seed_chain down =
    if is_empty down.chain
    then record { service = down.source; code = down.code; status = down.status; elided = 0 } ∷ []
    else down.chain

-- The hop of this service.
abbrev pub own_hop : Problem → Text → ℕ → Hop
own_hop down service outer_status = record {
  service = service;
  code = down.code;
  status = outer_status;
  elided = 0;
}

module _ (u : Unicode) (registry : Registry) (F : Framework) where
  -- `Relay`; a nil downstream problem is `none`.
  unfoldable pub relay : Option Problem → Text → ℕ → Problem
  unfolding seed_chain
  relay none service outer_status =
      new_problem u registry F (bytes "err:upstream:unavailable")
        (with_status outer_status ∷ with_source service ∷ [])
  relay (some down) service outer_status = record down {
    status = outer_status;
    chain = bound_chain (seed_chain down ++ own_hop down service outer_status ∷ []);
  }
