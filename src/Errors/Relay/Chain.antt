-- ===== src/Errors/Relay/Chain.antt =====
-- The breadcrumb along a path of relays: bounded, with its root and its latest hop in place.
use go_platform_kit.Common.{
  ℕ, suc, ◌-◌, ◌≤◌, ◌≡◌, refl, ◌∙◌, false, some, List, [], ◌∷◌, ◌++◌, Text, arith, Unicode, length,
  drop, get_or, leb, length-append, drop-append, length-drop, Bool-cases, inl, inr,
}
use go_platform_kit.Errors.Registry.{Registry}
use go_platform_kit.Errors.Problem.{Problem, Hop, max_chain_hops}
use go_platform_kit.Errors.Taxonomy.{Framework}
use go_platform_kit.Errors.Relay.{marker, bound_chain, seed_chain, own_hop, relay}

abbrev no_hop : Hop
no_hop = marker 0

-- A chain that is too long: its root, the marker and its last six hops.
bound_chain_long :
    (root : Hop) (hops : List Hop)
    → 8 ≤ length hops
    → bound_chain (root ∷ hops) ≡ root ∷ marker (length hops - 6) ∷ drop (length hops - 6) hops
unfolding bound_chain
bound_chain_long root hops long =
    let over : leb (suc (length hops)) 8 ≡ false = ground arith in
    let n : suc (length hops) - 6 ≡ suc (length hops - 6) = omega arith in
    let m : suc (length hops) - 1 - 6 ≡ length hops - 6 = omega arith in rw (over, n, m)

bound_chain_short : (chain : List Hop) → length chain ≤ 8 → bound_chain chain ≡ chain
unfolding bound_chain
bound_chain_short chain h = ground arith

-- Bounding keeps the root and the last hop, and at most six entries between them.
pub bound_chain_ends :
    (root last : Hop) (hops : List Hop)
    → (mid : List Hop) × (bound_chain (root ∷ (hops ++ last ∷ [])) ≡ root ∷ (mid ++ last ∷ []))
      × (length mid ≤ 6)
bound_chain_ends root last hops = elim (Bool-cases (leb (length (root ∷ (hops ++ last ∷ []))) 8)) [
  | inl short ↦ (
    hops,
    bound_chain_short (root ∷ (hops ++ last ∷ [])) (ground arith),
    ground (arith, length-append hops (last ∷ [])),
  )
  | inr long ↦
      let n : ℕ = length (hops ++ last ∷ []) - 6 in
      let many : 8 ≤ length (hops ++ last ∷ []) = ground arith in
      let split : drop n (hops ++ last ∷ []) ≡ drop n hops ++ last ∷ [] =
        drop-append n hops (last ∷ []) (omega (arith, length-append hops (last ∷ []))) in
      (
        marker n ∷ drop n hops,
        rw (bound_chain_long root (hops ++ last ∷ []) many, split),
        omega (arith, length-append hops (last ∷ []), length-drop n hops),
      )
]

-- The hop where the error comes from.
abbrev pub root_of : Problem → Hop
root_of down = get_or (seed_chain down) 0 no_hop

seed_chain-cons : (down : Problem) → (hops : List Hop) × (seed_chain down ≡ root_of down ∷ hops)
unfolding seed_chain
seed_chain-cons down = cons down.chain refl
  where
    cons :
        (chain : List Hop)
        → down.chain ≡ chain
        → (hops : List Hop) × (seed_chain down ≡ root_of down ∷ hops)
    cons [] e = ([], ground arith)
    cons (h ∷ hops) e = (hops, ground arith)

seed_chain_of :
    (p : Problem) (h : Hop) (hops : List Hop) → p.chain ≡ h ∷ hops → seed_chain p ≡ h ∷ hops
unfolding seed_chain
seed_chain_of p h hops e = ground arith

pub root_of_chain : (p : Problem) (h : Hop) (hops : List Hop) → p.chain ≡ h ∷ hops → root_of p ≡ h
unfolding seed_chain
root_of_chain p h hops e = ground arith

module _ (u : Unicode) (registry : Registry) (F : Framework) where
  -- One service after the other relays the error, each with its own outer status.
  unfoldable pub relays : Problem → List (Text × ℕ) → Problem
  relays down [] = down
  relays down ((service, status) ∷ path) =
      relays (relay u registry F (some down) service status) path

  -- What a relayed problem keeps of the one that it relays: what failed, where, and its thread.
  pub record Keeps (down p : Problem) : Type 0 where
    pub code : p.code ≡ down.code
    pub source : p.source ≡ down.source
    pub trace_id : p.trace_id ≡ down.trace_id
    pub title : p.title ≡ down.title
    pub detail : p.detail ≡ down.detail
    pub root : root_of p ≡ root_of down

  -- A relayed chain starts with the hop where the error comes from and ends with the hop of the
  -- relaying service, which has its outer status; at most six entries stand between them.
  pub relay-chain :
      (down : Problem) (service : Text) (status : ℕ)
      → (mid : List Hop) × ((relay u registry F (some down) service status).chain
          ≡ root_of down ∷ (mid ++ own_hop down service status ∷ []))
        × (length mid ≤ 6)
  unfolding relay
  relay-chain down service status =
      let (hops, e) = seed_chain-cons down in
      rw e (bound_chain_ends (root_of down) (own_hop down service status) hops)

  -- One relay keeps what failed and where, its texts and its thread, and the root of its chain.
  pub relay-Keeps :
      (down : Problem) (service : Text) (status : ℕ)
      → Keeps down (relay u registry F (some down) service status)
  unfolding relay
  relay-Keeps down service status =
      let (mid, e, _) = relay-chain down service status in
      record {
        code = refl;
        source = refl;
        trace_id = refl;
        title = refl;
        detail = refl;
        root =
            root_of_chain (relay u registry F (some down) service status) (root_of down)
              (mid ++ own_hop down service status ∷ []) e;
      }

  pub relay_bounded :
      (down : Problem) (service : Text) (status : ℕ)
      → length (relay u registry F (some down) service status).chain ≤ max_chain_hops
  relay_bounded down service status =
      let (mid, e, few) = relay-chain down service status in
      rw e (omega (arith, length-append mid (own_hop down service status ∷ [])))

  -- Along any path of relays the code, the source, the trace id, the title, the detail and the root
  -- of the chain survive, and the chain that leaves the last one has at most eight entries, if the
  -- first one had.
  pub relays-Keeps :
      (down : Problem) (path : List (Text × ℕ))
      → length down.chain ≤ max_chain_hops
      → Keeps down (relays down path) × (length (relays down path).chain ≤ max_chain_hops)
  unfolding relays
  relays-Keeps down [] h = (
    record {
      code = refl;
      source = refl;
      trace_id = refl;
      title = refl;
      detail = refl;
      root = refl;
    },
    h,
  )
  relays-Keeps down ((service, status) ∷ path) h =
      let first = relay-Keeps down service status in
      let (rest, bounded) =
        relays-Keeps (relay u registry F (some down) service status) path
          (relay_bounded down service status) in
      (
        record {
          code = rest.code ∙ first.code;
          source = rest.source ∙ first.source;
          trace_id = rest.trace_id ∙ first.trace_id;
          title = rest.title ∙ first.title;
          detail = rest.detail ∙ first.detail;
          root = rest.root ∙ first.root;
        },
        bounded,
      )

  -- A relay of a full chain always says that two hops are omitted: what the marker in the chain
  -- said before is lost, though it stands for hops too.
  pub relay_full_chain :
      (down : Problem) (root : Hop) (omitted : ℕ) (rest : List Hop) (service : Text) (status : ℕ)
      → down.chain ≡ root ∷ marker omitted ∷ rest
      → length rest ≡ 6
      → (relay u registry F (some down) service status).chain
        ≡ root ∷ marker 2 ∷ drop 1 (rest ++ own_hop down service status ∷ [])
  unfolding relay
  relay_full_chain down root omitted rest service status e full =
      let n : length (marker omitted ∷ (rest ++ own_hop down service status ∷ [])) ≡ 8 =
        omega (arith, length-append rest (own_hop down service status ∷ [])) in
      let k : length (marker omitted ∷ (rest ++ own_hop down service status ∷ [])) - 6 ≡ 2 =
        omega arith in
      rw (seed_chain_of down root (marker omitted ∷ rest) e) (
        bound_chain_long root (marker omitted ∷ (rest ++ own_hop down service status ∷ []))
          (omega arith)
        ∙ rw k)
