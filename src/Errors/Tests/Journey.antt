-- ===== src/Errors/Tests/Journey.antt =====
-- A failure of the document service, relayed by the public service.
use go_platform_kit.Common.{
  ◌≡◌, ◌≢◌, refl, false, Option, none, some, List, [], ◌∷◌, ◌++◌, Text, bytes, is_empty, lookup,
}
use go_platform_kit.Errors.Problem.{Problem}
use go_platform_kit.Errors.Registry.{lookup_reason}
use go_platform_kit.Errors.Taxonomy.{
  problem, foreign, status_code, safe_error, error_code, as_interface,
}
use go_platform_kit.Errors.Envelope.{title_for_status, generic_code_for_status, parse_problem}
use go_platform_kit.Errors.Relay.{relay}
use go_platform_kit.Errors.ToProblem.{
  own_problem, own_validation, status_for_error, to_problem, bare_problem,
}
use go_platform_kit.Errors.Render.{Request, FailureEvent, done, Body, rendered, trace_thread}
use go_platform_kit.Errors.Render.Handling.{handler_lem}
use go_platform_kit.Errors.Render.Coded.{Titled}
use go_platform_kit.Errors.Journey.{Service, Journey, origin, hop, audited_at}
use go_platform_kit.Errors.Journey.Arrival.{Arrived, Journey-Arrived}
use go_platform_kit.Errors.Tests.{ascii, azugo}

abbrev request : Request
request = record {
  correlation_id = bytes "c-1";
  trace_id = [];
  app_instance_id = [];
  router_path = bytes "/documents/{id}";
  method = bytes "GET";
}

abbrev document_svc : Service azugo
document_svc = record {
  name = bytes "document-svc";
  registry = [];
  hooks = some (λ _. done) ∷ [];
  request = request;
  now = 7;
  error = foreign (bytes "boom", 404);
}

abbrev failed_here : Problem
failed_here = rendered azugo ascii [] (bytes "document-svc") request (foreign (bytes "boom", 404))

abbrev decoded : Problem
decoded = record failed_here { detail_public = false }

-- An encoder of the code alone, and a decoder that knows the one body.
abbrev encode : Body → Option Text
encode (Body.full_body p) = some p.code
encode (Body.public_body p) = some p.title

abbrev decode : Text → Option Problem
decode body = some decoded

abbrev bff : Service azugo
bff = record {
  name = bytes "bff";
  registry = [];
  hooks = some (λ _. done) ∷ [];
  request = request;
  now = 8;
  error = problem (relay ascii [] azugo (some decoded) (bytes "bff") 502);
}

no_reason-Titled : Titled azugo ascii []
unfolding lookup_reason lookup
no_reason-Titled reason spec h = cc

abbrev audited : List FailureEvent
audited =
    audited_at azugo ascii encode decode document_svc ++ audited_at azugo ascii encode decode bff

names_differ : bytes "bff" ≢ bytes "document-svc"
unfolding bytes
names_differ h = cc

read_back : parse_problem decode failed_here.code ≡ some decoded
unfolding parse_problem rendered to_problem bare_problem status_for_error own_validation error_code
    status_code generic_code_for_status title_for_status safe_error trace_thread as_interface
    own_problem bytes
read_back = refl

relayed_whole :
    as_interface azugo (own_problem azugo) bff.error
    ≡ some (relay ascii [] azugo (some decoded) (bytes "bff") 502)
unfolding as_interface own_problem
relayed_whole = refl

there_and_back : Journey azugo ascii encode decode document_svc bff audited
there_and_back =
    hop origin bff failed_here.code 502 names_differ
      (handler_lem azugo ascii [] encode (bytes "document-svc") false (some (λ _. done) ∷ [])
        request 7 (foreign (bytes "boom", 404))).0
      read_back (rw read_back relayed_whole)

failed_own : as_interface azugo (own_problem azugo) document_svc.error ≡ none
unfolding as_interface own_problem
failed_own = refl

found_by : is_empty (trace_thread azugo ascii [] request) ≡ false
unfolding trace_thread bytes
found_by = refl

named : is_empty (bytes "document-svc") ≡ false
unfolding bytes
named = refl

Journey-Arrived_example : Arrived azugo ascii encode decode document_svc bff audited
Journey-Arrived_example =
    Journey-Arrived azugo ascii encode decode document_svc bff audited no_reason-Titled named
      found_by failed_own there_and_back
