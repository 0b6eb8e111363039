-- ===== src/Errors/Tests/Rendering.antt =====
-- Instances of the theorems on relaying and rendering.
use go_platform_kit.Common.{
  ◌≡◌, ◌≢◌, ◌≤◌, refl, true, false, Option, none, some, List, [], ◌∷◌, ◌++◌, Text, text_eq, nat_eq,
  ◌==◌, bytes, is_empty, is_some, arith, length, drop, lookup, if◌then◌else◌, trim_space, trim_left,
  is_space, text_beq,
}
use go_platform_kit.Errors.Codes.{
  parse_code, format_code, code_of_parts, split_on, join_with, err_prefix,
}
use go_platform_kit.Errors.Registry.{lookup_reason}
use go_platform_kit.Errors.Problem.{Problem, Hop, max_chain_hops}
use go_platform_kit.Errors.Taxonomy.{
  GoError, problem, foreign, as_interface, from_result_code, http, resource, msg,
}
use go_platform_kit.Errors.Envelope.{new_problem}
use go_platform_kit.Errors.Relay.{marker, own_hop, relay}
use go_platform_kit.Errors.Relay.Chain.{relay_full_chain}
use go_platform_kit.Errors.ToProblem.{own_problem, to_problem}
use go_platform_kit.Errors.Render.{
  Request, FailureHook, done, panics, Body, failure_event, body_of, rendered, handler,
}
use go_platform_kit.Errors.Render.Laws.{audits, per_hook, written}
use go_platform_kit.Errors.Render.Handling.{handler_lem, audit_of_own, boundary_hides}
use go_platform_kit.Errors.Render.Coded.{Titled, to_problem-from_result_code, to_problem_complete}
use go_platform_kit.Errors.Tests.{ascii, azugo, registry, locked, locked_code, found_locked}

abbrev hop : Text → Hop
hop service = record {
  service = service;
  code = bytes "err:document:locked";
  status = 423;
  elided = 0;
}

-- A problem of the document service, with its hops.
abbrev down : List Hop → Problem
down chain = record {
  type_uri = [];
  title = bytes "Document is locked";
  status = 423;
  detail = bytes "row 7 is held";
  code = bytes "err:document:locked";
  source = bytes "document-svc";
  trace_id = bytes "t-1";
  chain = chain;
  detail_public = false;
}

empty_fits : length (down []).chain ≤ max_chain_hops
empty_fits = omega arith

abbrev six_hops : List Hop
six_hops =
    hop (bytes "b")
    ∷ hop (bytes "c")
    ∷ hop (bytes "d")
    ∷ hop (bytes "e")
    ∷ hop (bytes "f")
    ∷ hop (bytes "g")
    ∷ []

-- Four hops are omitted already.
relay_full_chain_example :
    (relay ascii registry azugo
      (some (down (hop (bytes "a") ∷ marker 4 ∷ six_hops)))
      (bytes "bff")
      502).chain
    ≡ hop (bytes "a")
      ∷ marker 2
      ∷ drop 1 (
          six_hops ++ own_hop (down (hop (bytes "a") ∷ marker 4 ∷ six_hops)) (bytes "bff") 502 ∷ [])
relay_full_chain_example =
    relay_full_chain ascii registry azugo (down (hop (bytes "a") ∷ marker 4 ∷ six_hops))
      (hop (bytes "a")) 4 six_hops (bytes "bff") 502 refl refl

abbrev encode : Body → Option Text
encode (Body.full_body p) = some p.code
encode (Body.public_body p) = some p.title

abbrev hooks : List (Option FailureHook)
hooks = some (λ _. panics) ∷ none ∷ some (λ _. done) ∷ []

abbrev request : Request
request = record {
  correlation_id = bytes "c-1";
  trace_id = [];
  app_instance_id = [];
  router_path = bytes "/v1/documents";
  method = bytes "GET";
}

abbrev boom : GoError azugo
boom = foreign (bytes "boom", 404)

handler_lem_example :
    (written (handler azugo ascii registry encode (bytes "bff") true hooks request 7 (some boom)).0
      ≡ encode (
          body_of azugo ascii registry true
            (rendered azugo ascii registry (bytes "bff") request boom)))
    × ((handler azugo ascii registry encode (bytes "bff") true hooks request 7 (some boom)).1
        ≡ is_some (
            encode (
              body_of azugo ascii registry true
                (rendered azugo ascii registry (bytes "bff") request boom))))
    × (audits (handler azugo ascii registry encode (bytes "bff") true hooks request 7 (some boom)).0
        ≡ (if (rendered azugo ascii registry (bytes "bff") request boom).source == bytes "bff"
            then per_hook
                (failure_event azugo ascii registry request 7
                  (rendered azugo ascii registry (bytes "bff") request boom))
                hooks
            else []))
handler_lem_example =
    handler_lem azugo ascii registry encode (bytes "bff") true hooks request 7 boom

boom_own : as_interface azugo (own_problem azugo) boom ≡ none
unfolding as_interface own_problem
boom_own = refl

audit_of_own_example :
    audits (handler azugo ascii registry encode (bytes "bff") true hooks request 7 (some boom)).0
    ≡ per_hook
        (failure_event azugo ascii registry request 7
          (rendered azugo ascii registry (bytes "bff") request boom))
        hooks
audit_of_own_example =
    audit_of_own azugo ascii registry encode (bytes "bff") true hooks request 7 boom boom_own

relayed_own : as_interface azugo (own_problem azugo) (problem (down [])) ≡ some (down [])
unfolding as_interface own_problem
relayed_own = refl

sourced : is_empty (down []).source ≡ false
unfolding bytes
sourced = refl

other_source : (down []).source ≢ bytes "bff"
unfolding bytes
other_source h = cc

boundary_hides_example :
    written
      (handler azugo ascii registry encode (bytes "bff") true hooks request 7 (
        some (
          problem (record (down []) {
            source = bytes "vault-svc";
            detail = bytes "row 9";
            chain = six_hops;
          })))).0
    ≡ written
        (handler azugo ascii registry encode
          (bytes "bff")
          true
          hooks
          request
          7
          (some (problem (down [])))).0
boundary_hides_example =
    boundary_hides azugo ascii registry encode (bytes "bff") hooks request 7 (down [])
      (bytes "vault-svc") (bytes "row 9") six_hops refl

formatted_locked : parse_code ascii (format_code locked_code) ≡ some locked_code
unfolding parse_code code_of_parts split_on join_with err_prefix trim_space trim_left is_space bytes
    text_beq
formatted_locked = refl

to_problem-from_result_code_example :
    (to_problem azugo ascii registry
        (from_result_code azugo ascii registry (format_code locked_code) [])
      ≡ record (new_problem ascii registry azugo (format_code locked_code) []) {
        detail = resource locked.title (msg []);
      })
    × (to_problem azugo ascii registry
          (http azugo ascii registry locked_code.domain locked_code.reason [])
        ≡ record (new_problem ascii registry azugo (format_code locked_code) []) {
          detail = resource locked.title (msg []);
        })
to_problem-from_result_code_example =
    to_problem-from_result_code azugo ascii registry locked_code locked [] formatted_locked
      found_locked refl

no_reason-Titled : Titled azugo ascii []
unfolding lookup_reason lookup
no_reason-Titled reason spec h = cc

to_problem_complete_example :
    (is_empty (to_problem azugo ascii [] boom).code ≡ false)
    × (is_empty (to_problem azugo ascii [] boom).title ≡ false)
to_problem_complete_example = to_problem_complete azugo ascii [] no_reason-Titled boom
