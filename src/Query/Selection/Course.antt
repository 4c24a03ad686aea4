-- ===== src/Query/Selection/Course.antt =====
-- The course of SelectContext on a request: what is known of each part of a run that comes to a result.
use manu.Base.{
  ◌≡◌, refl, sym, ℕ, ◌≤◌, ℤ, pos, negsuc, ltb_ℤ, leb, pos_part, true, false, none, some, List, [],
  length, Str, ◌⊎◌, and→left, and→right, arith, Map,
}
use manu.Base.Run.{done, done-value, bind-done, then-done}
use manu.Query.Check.{Polls, require_iff, require-then, invalid_context, ensure-done, obtain-done}
use manu.Query.Context.{
  Owners, max_context_tokens, max_context_items, max_context_characters, max_context_bytes,
}
use manu.Query.Context.Validate.{scope_valid, limits_valid, within}
use manu.Query.Utility.{Float, IsFloat, ContextUtilityConfiguration, normalize}
use manu.Query.Candidate.{
  ContextSelectionCandidate, ContextSelectionRequest, max_context_selection_candidates,
  candidates_valid, is_some, validate_request,
}
use manu.Query.Greedy.{Prepared, Selecting}
use manu.Query.Result.{ContextSelectionAudit, ContextSelectionResult, candidates_by_id}
use manu.Query.Selection.{start, result_of, selection}
use manu.Query.Selection.Tracked.{IsTracked}
use manu.Query.Selection.Loop.{Full, Closed, select_loop-Tracked}
use manu.Query.Selection.Identity.{Distinct, candidates_valid-Distinct, lookup-candidates}
use manu.Query.Selection.Preparation.{IsAdmitted, IsDivided, prepare-Divided}

-- A limit that is valid has room for 0 or 1.
within-room :
    (limit : ℤ) (bound n : ℕ) → within limit bound ≡ true → n ≤ 1 → ltb_ℤ limit (pos n) ≡ false
within-room (pos k) bound n h small = ground arith
within-room (negsuc k) bound n h small = absurd (ground arith)

module _ {W : Type 0} ⦃f : Float W⦄ (owners : Owners)
    (hash : ContextUtilityConfiguration W → Str) where
  -- The parts of a valid request that the rest relies on.
  pub record IsRequest (request : ContextSelectionRequest W) : Type 0 where
    pub limits : limits_valid request.limits ≡ true
    pub count : leb (length request.candidates) max_context_selection_candidates ≡ true
    pub distinct : Distinct request.candidates

  validate_request-IsRequest :
      (request : ContextSelectionRequest W)
      → validate_request owners hash request ≡ none
      → IsRequest request
  unfolding validate_request
  validate_request-IsRequest r h =
      let (_, h1) = require-then (scope_valid r.scope) _ _ h in
      let (bounded, h2) = require-then (limits_valid r.limits) _ _ h1 in
      let (few, h3) =
        require-then (leb (length r.candidates) max_context_selection_candidates) _ _ h2 in
      let (_, h4) = require-then (is_some (normalize hash r.configuration)) _ _ h3 in
      let all_valid =
        (require_iff (candidates_valid owners [] r.candidates) invalid_context).0 h4 in
      record {
        limits = bounded;
        count = few;
        distinct = λ id.
            omega
              (arith, candidates_valid-Distinct owners [] r.candidates id all_valid (omega arith));
      }

  abbrev pub expected_of : ContextSelectionRequest W → Map (ContextSelectionCandidate W)
  expected_of request = candidates_by_id request.candidates []

  abbrev pub Admitted : ContextSelectionRequest W → ContextSelectionCandidate W → Type 0
  Admitted request = IsAdmitted owners request.scope (expected_of request)

  pub record Course (request : ContextSelectionRequest W) (r : ContextSelectionResult W)
      : Type 0 where
    pub valid : validate_request owners hash request ≡ none
    pub parts : IsRequest request
    pub configuration : ContextUtilityConfiguration W
    pub normal : normalize hash request.configuration ≡ some configuration
    pub prepared : List (Prepared W)
    pub refused : List (ContextSelectionAudit W)
    pub divided :
        IsDivided owners request.scope (expected_of request) request.candidates prepared refused
    pub last : Selecting W
    pub tracked : IsTracked request.limits (Admitted request) prepared last
    pub ending :
        Full owners hash request.limits configuration last
        ⊎ Closed owners hash request.limits configuration last
    pub result : result_of configuration refused last ≡ r

  start-IsTracked :
      (request : ContextSelectionRequest W) (prepared : List (Prepared W))
      (refused : List (ContextSelectionAudit W))
      → IsRequest request
      → IsDivided owners request.scope (expected_of request) request.candidates prepared refused
      → IsTracked request.limits (Admitted request) prepared (start prepared)
  unfolding limits_valid
  start-IsTracked request prepared refused parts d =
      let l = request.limits in
      let first_three = and→left _ (within l.max_bytes max_context_bytes) parts.limits in
      let first_two = and→left _ (within l.max_characters max_context_characters) first_three in
      let items = and→right _ (within l.max_items max_context_items) first_two in
      let tokens = and→left (within l.max_tokens max_context_tokens) _ first_two in
      record {
        same = λ m. refl;
        counted = λ m. sym (d.unmarked m);
        tokens = refl;
        characters = refl;
        bytes = refl;
        priced = d.priced;
        numbers = d.numbers;
        admitted = d.admitted;
        chosen = tt;
        keys = λ key. refl;
        apart = λ key. omega arith;
        item_limit = within-room l.max_items max_context_items 0 items (omega arith);
        token_limit = within-room l.max_tokens max_context_tokens 0 tokens (omega arith);
        character_limit =
            within-room l.max_characters max_context_characters 0
              (and→right _ (within l.max_characters max_context_characters) first_three)
              (omega arith);
        byte_limit =
            within-room l.max_bytes max_context_bytes 0
              (and→right _ (within l.max_bytes max_context_bytes) parts.limits) (omega arith);
      }

  pub selection-Course :
      (laws : IsFloat W) (request : ContextSelectionRequest W) (p : Polls) {q : Polls}
      {r : ContextSelectionResult W}
      → selection owners hash request p ≡ done r q
      → Course request r
  unfolding selection candidates_by_id
  selection-Course laws request p h =
      let (_, p1, _, h1) = then-done _ _ p h in
      let (_, p2, tested, h2) = then-done _ _ p1 h1 in
      let (configuration, p3, configured, h3) = bind-done _ _ p2 h2 in
      let ((prepared, refused), p4, divided, h4) = bind-done _ _ p3 h3 in
      let (s, p5, looped, h5) = bind-done _ _ p4 h4 in
      let valid = ensure-done _ p1 tested in
      let parts = validate_request-IsRequest request valid in
      let division =
        prepare-Divided owners request.scope (expected_of request) laws request.candidates p3
          (lookup-candidates request.candidates [] parts.distinct) divided in
      let (tracked, ending) =
        select_loop-Tracked owners hash request.limits configuration (Admitted request) prepared
          (pos_part request.limits.max_items) (start prepared) p4 (omega arith)
          (start-IsTracked request prepared refused parts division) looped in
      record {
        valid = valid;
        parts = parts;
        configuration = configuration;
        normal = obtain-done _ _ p2 configured;
        prepared = prepared;
        refused = refused;
        divided = division;
        last = s;
        tracked = tracked;
        ending = ending;
        result = done-value h5;
      }
