-- ===== src/Errors/Render/Full.antt =====
-- Full problems, as the handler renders them.
use go_platform_kit.Common.{
  ◌≡◌, refl, false, none, some, [], Text, arith, Unicode, is_empty, option_or,
}
use go_platform_kit.Errors.Registry.{Registry}
use go_platform_kit.Errors.Problem.{Problem, with_status}
use go_platform_kit.Errors.Taxonomy.{Framework, GoError, error_code, as_interface}
use go_platform_kit.Errors.Envelope.{new_problem}
use go_platform_kit.Errors.ToProblem.{
  own_problem, to_problem, normalized, coded_problem, bare_problem,
}
use go_platform_kit.Errors.Render.{Request, trace_thread, rendered}
use go_platform_kit.Errors.Render.Handling.{rendered_own}
use go_platform_kit.Errors.Render.Coded.{Titled, to_problem_complete}

-- A full problem.
abbrev pub IsFull : Problem → Type 0
IsFull p =
    (is_empty p.code ≡ false)
    × (is_empty p.title ≡ false)
    × (is_empty p.source ≡ false)
    × (is_empty p.trace_id ≡ false)

-- `p` is `q`, but for the status and the mark of a public detail.
pub record Same (q p : Problem) : Type 0 where
  pub code : p.code ≡ q.code
  pub title : p.title ≡ q.title
  pub source : p.source ≡ q.source
  pub trace_id : p.trace_id ≡ q.trace_id
  pub detail : p.detail ≡ q.detail
  pub chain : p.chain ≡ q.chain

module _ (F : Framework) (u : Unicode) (registry : Registry) where
  coded_problem-chain :
      (err : GoError F) (code : Text) → (coded_problem F u registry err code).chain ≡ []
  unfolding coded_problem new_problem with_status
  coded_problem-chain err code = ground arith

  module _ (source : Text) (r : Request) (err : GoError F) where
    -- A full problem that the error holds is rendered as it is.
    pub rendered-Same :
        (q : Problem)
        → as_interface F (own_problem F) err ≡ some q
        → IsFull q
        → Same q (rendered F u registry source r err)
    unfolding rendered to_problem normalized
    rendered-Same q own (code, title, from, thread) = record {
      code = ground arith;
      title = ground arith;
      source = ground arith;
      trace_id = ground arith;
      detail = ground arith;
      chain = ground arith;
    }

    -- An error that holds no problem has no chain.
    pub own_chain :
        as_interface F (own_problem F) err ≡ none → (rendered F u registry source r err).chain ≡ []
    unfolding rendered to_problem bare_problem
    own_chain own =
        ground (arith, coded_problem-chain err (option_or (as_interface F (error_code F) err) []))

    rendered-to_problem :
        ((rendered F u registry source r err).code ≡ (to_problem F u registry err).code)
        × ((rendered F u registry source r err).title ≡ (to_problem F u registry err).title)
    unfolding rendered
    rendered-to_problem = (refl, refl)

    -- An error that holds no problem is rendered as a full one, by a service with a name, for a
    -- request with an id, where no reason has an empty title.
    pub own-IsFull :
        Titled F u registry
        → is_empty source ≡ false
        → is_empty (trace_thread F u registry r) ≡ false
        → as_interface F (own_problem F) err ≡ none
        → IsFull (rendered F u registry source r err)
    own-IsFull titled named found own =
        let (code, title) = to_problem_complete F u registry titled err in
        let (same_code, same_title) = rendered-to_problem in
        let (from, thread) = rendered_own F u registry source r err own in
        (rw same_code code, rw same_title title, rw from named, rw thread found)
