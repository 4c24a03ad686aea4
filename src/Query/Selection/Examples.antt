-- ===== src/Query/Selection/Examples.antt =====
-- A selection among four candidates, two of which share a key and one of which is of another scope, in
-- thousandths for float64.
use manu.Base.{
  ◌≡◌, refl, ℕ, ◌+◌, ◌*◌, ◌/◌, ltb, leb, ◌==◌, pos, Bool, true, false, none, some, [], ◌∷◌, Str,
  str_eq, str_lt, All, bytes, occurrences, lookup, insert, place, sorted, arith, trim_space,
}
use manu.Base.Run.{done}
use manu.Query.Check.{Polls, ◌>>=◌, ◌>>◌}
use manu.Query.Context.{Scope, Locator, ContextItem, evidence_item, observed, Owners, mem_str}
use manu.Query.Context.Validate.{
  is_sha256, equal_fold, without_dashes, dash_at, validate_uuid, scope_valid, same_scope,
  limits_valid, is_zero_locator, locator_for_validation, valid_context_id, distinct_valid,
  validate_context_ids, validate_item, references_valid, validate_provenance, payload_valid,
}
use manu.Query.Utility.{
  Float, IsFloat, ContextUtilityConfiguration, context_utility_version, context_selection_algorithm,
  finite, weight_valid, validate_configuration, with_identifiers, with_weights, with_digest,
  checked, normalize, same_configuration,
}
use manu.Query.Candidate.{
  ContextSelectionCandidate, ContextSelectionRequest, resolve_selection_cost, costs, costs_or_none,
  redundancy_key, metadata_valid, validate_candidate, candidates_valid, validate_request,
}
use manu.Query.Greedy.{
  ContextSelectionReason, included, excluded_redundancy, excluded_scope, excluded_budget,
  same_item_kind, artifact_key, covered, count_new, has_kind, has_artifact, fits_selection_budget,
  mark, take_best, better_selection_choice, choose, weigh, each_valid, utility_sum,
  marginal_utility, consider, scan, round, select_loop,
}
use manu.Query.Result.{
  ContextSelectionAudit, ContextSelectionResult, item_ids, all_among, items_valid, validate_audit,
  audits_valid, candidates_by_id, same_costs, costs_at, count_audit, tally, tally_agrees, tallied,
  items_expected, validate_result, is_applied, validate_against,
}
use manu.Query.Selection.{
  excluded_audit, final_reason, audit_of, any_budget, result_of, prepared_of, sort_out, prepare,
  selection, select_context,
}
use manu.Query.Selection.Outcome.{
  IsSound, IsAccounted, select_context-selection, select_context-IsSound, select_context_audits,
}
use manu.Query.Selection.Preparation.{is_admissible}
use manu.Query.Selection.Maximal.{select_context_maximal}

instance abbrev pub thousandths : Float ℕ
thousandths = record {
  of_nat = λ n. n * 1000;
  add = λ a b. a + b;
  mul = λ a b. a * b / 1000;
  div = λ a b. a * 1000 / b;
  eq = λ a b. a == b;
  lt = ltb;
  le = leb;
  is_nan = λ a. false;
  is_inf = λ a. false;
}

pub thousandths-IsFloat : IsFloat ℕ
thousandths-IsFloat = record {
  eq_refl = λ x h. ground arith;
  zero_number = refl;
  zero_finite = refl;
  one_nonzero = refl;
}

-- Of the checks of the other packages, what the example needs.
abbrev pub owners : Owners
owners = record {
  fact_valid = λ x. true;
  entity_valid = λ x. true;
  evidence_valid = λ x. true;
  producer_valid = λ x. true;
  lineage_valid = λ x. true;
  reference_valid = λ s x. true;
  predicate_valid = λ x. true;
  locator_valid = λ s l. true;
  token_valid = λ s. true;
  text_valid = λ s. true;
}

abbrev pub digest : Str
digest = bytes "aaaaaaaaaaaaaaaaaaaaaaaaaaaaaaaaaaaaaaaaaaaaaaaaaaaaaaaaaaaaaaaa"

abbrev pub hash : ContextUtilityConfiguration ℕ → Str
hash c = digest

pub hexadecimal : (c : ContextUtilityConfiguration ℕ) → is_sha256 (hash c) ≡ true
unfolding is_sha256
hexadecimal c = refl

abbrev pub uuid : Str
uuid = bytes "00000000-0000-0000-0000-00000000000a"

abbrev pub here : Scope
here = record { organization_id = uuid; source_id = uuid; snapshot_id = uuid }

abbrev pub elsewhere : Scope
elsewhere = record here { source_id = bytes "00000000-0000-0000-0000-00000000000b" }

abbrev pub place_of : Str → Locator
place_of artifact = record {
  uri = [];
  source_id = [];
  artifact_id = artifact;
  path = [];
  member = [];
  start_line = pos 0;
  start_column = pos 0;
  end_line = pos 0;
  end_column = pos 0;
  byte_offset = pos 0;
  byte_length = pos 0;
}

abbrev pub item : Scope → Str → ContextItem
item scope id = record {
  id = id;
  kind = evidence_item;
  origin = observed;
  scope = scope;
  fact = none;
  entity = none;
  evidence = some (record { id = id; scope = scope; locator = place_of id; content = [] });
  locator = place_of [];
  provenance = record { producer = none; lineage = none; evidence = [] };
  support_ids = [];
}

abbrev pub candidate : Scope → Str → Str → ℕ → ℕ → ContextSelectionCandidate ℕ
candidate scope id key relevance cost = record {
  item = item scope id;
  relevance = relevance;
  rank = pos 0;
  aspects = bytes "flow" ∷ [];
  redundancy_key = key;
  token_cost = pos cost;
  character_cost = pos cost;
  byte_cost = pos cost;
  tokens = pos 0;
  characters = pos 0;
  bytes = pos 0;
}

abbrev pub request : ContextSelectionRequest ℕ
request = record {
  scope = here;
  limits = record {
    max_tokens = pos 10;
    max_items = pos 3;
    max_characters = pos 100;
    max_bytes = pos 100;
  };
  candidates =
      candidate here (bytes "a") (bytes "k") 1000 4
      ∷ candidate here (bytes "b") (bytes "k") 3000 4
      ∷ candidate elsewhere (bytes "c") [] 9000 1
      ∷ candidate here (bytes "d") [] 2000 9
      ∷ [];
  configuration = record {
    version = [];
    algorithm = [];
    relevance_weight = 0;
    aspect_weight = 0;
    kind_diversity_weight = 0;
    artifact_diversity_weight = 0;
    digest = [];
  };
}

-- What a run computes with.
unfoldable pub runs : Unit {0}
unfolding select_context selection validate_request scope_valid limits_valid validate_uuid
    without_dashes dash_at references_valid validate_provenance payload_valid normalize
    with_identifiers with_weights checked validate_configuration weight_valid finite is_sha256
    with_digest candidates_valid metadata_valid valid_context_id trim_space distinct_valid costs
    resolve_selection_cost prepare sort_out same_scope equal_fold validate_item validate_context_ids
    locator_for_validation is_zero_locator excluded_audit prepared_of costs_or_none select_loop
    round scan consider redundancy_key fits_selection_budget marginal_utility validate_candidate
    each_valid utility_sum covered count_new has_kind has_artifact same_item_kind artifact_key weigh
    choose better_selection_choice take_best mark result_of audit_of final_reason any_budget sorted
    place str_eq str_lt validate_against validate_result items_valid audits_valid validate_audit
    all_among is_applied same_configuration candidates_by_id insert lookup tally tallied
    tally_agrees count_audit same_costs costs_at items_expected ◌>>=◌ ◌>>◌
runs = tt

abbrev pub configuration : ContextUtilityConfiguration ℕ
configuration = record {
  version = context_utility_version;
  algorithm = context_selection_algorithm;
  relevance_weight = 1000;
  aspect_weight = 1000;
  kind_diversity_weight = 1000;
  artifact_diversity_weight = 1000;
  digest = digest;
}

abbrev pub decision : Str → Bool → ContextSelectionReason → ℕ → ℕ → ContextSelectionAudit ℕ
decision id flag reason score cost = record {
  item_id = id;
  is_included = flag;
  reason = reason;
  rank = pos 0;
  score = score;
  token_estimate = cost;
  characters = cost;
  bytes = cost;
}

-- The better of the two with one key is taken, and what is left does not suffice for the last.
abbrev pub found : ContextSelectionResult ℕ
found = record {
  items = item here (bytes "b") ∷ [];
  audit =
      decision (bytes "a") false excluded_redundancy 4000 4
      ∷ decision (bytes "b") true included 6000 4
      ∷ decision (bytes "c") false excluded_scope 9000 1
      ∷ decision (bytes "d") false excluded_budget 5000 9
      ∷ [];
  item_count = 1;
  token_estimate = 4;
  characters_used = 4;
  bytes_used = 4;
  configuration = configuration;
  budget_exhausted = true;
}

-- The context is asked seven times: at the start, at each candidate, and at each of two rounds.
abbrev pub selection_polls : Polls
selection_polls = false ∷ false ∷ false ∷ false ∷ false ∷ false ∷ false ∷ []

pub selects : select_context owners hash request selection_polls ≡ done found []
unfolding runs
selects = refl

select_context-selection_example :
    select_context owners hash request selection_polls
    ≡ selection owners hash request selection_polls
select_context-selection_example =
    select_context-selection thousandths-IsFloat owners hash hexadecimal request selection_polls

select_context-IsSound_example : IsSound owners hash request found
select_context-IsSound_example =
    select_context-IsSound thousandths-IsFloat owners hash hexadecimal request selection_polls []
      found selects

select_context_audits_example :
    ((id : Str)
      → occurrences (λ a. a.item_id) id found.audit
        ≡ occurrences (λ c. c.item.id) id request.candidates)
    × All (λ a. a.is_included ≡ mem_str a.item_id (item_ids found.items)) found.audit
select_context_audits_example =
    select_context_audits thousandths-IsFloat owners hash hexadecimal request selection_polls []
      found selects

select_context_maximal_example :
    (sound : IsSound owners hash request found) × (normalize hash request.configuration
      ≡ some found.configuration)
    × All
        (λ c.
          is_admissible owners request.scope c ≡ true
          → IsAccounted owners hash request found sound.selected c)
        request.candidates
select_context_maximal_example =
    select_context_maximal thousandths-IsFloat owners hash hexadecimal request selection_polls []
      found selects
