-- ===== src/Query/Closed/Examples.antt =====
-- The selection of Query.Selection.Examples under relations between two of its candidates.
use manu.Base.{leb, length, ◌≡◌, refl, ℕ, pos, true, false, none, [], ◌∷◌, Str, bytes}
use manu.Base.Run.{done, failed}
use manu.Query.Check.{ensure, require, give, ◌>>=◌, ◌>>◌, Polls, invalid_context_budget}
use manu.Query.Context.{max_context_items, observed}
use manu.Query.Greedy.{included, excluded_scope, excluded_budget}
use manu.Query.Result.{ContextSelectionResult}
use manu.Query.Relation.{
  ContextRelation, ContextRelationCandidate, validate_relation, validate_own, required_ids,
  relation_costs, score_valid, relation_metadata, validate_relation_candidate, relation_before,
  sorted_relations, same_relation,
}
use manu.Query.Closure.{
  add_closure_cost, fits_closure_budget, sum_costs, include_audit, add_item, add_items,
  relation_audit_of, leave_out, take_relation, add_with, look_for, look_for_all, close_relation,
  close_relations,
}
use manu.Query.ClosureState.{
  ContextSupportClosureRequest, ContextSupportClosureResult, relation_included,
}
use manu.Query.ClosureResult.{
  has_scope, count_relation, relation_tally, closure_result, relations_valid,
  validate_relation_audit, relation_audits_valid, validate_closure,
}
use manu.Query.Closed.{
  find_relation, is_same, relation_candidates_valid, validate_closure_request,
  relation_audits_agree, validate_closure_against, closure, close_context_support,
}
use manu.Query.Closed.SelfCheck.Looped.{closure_fits}
use manu.Query.Closed.SelfCheck.{close_context_support-closure}
use manu.Query.Closed.Composed.{nothing_added, without_relations, select_context_closes}
use manu.Query.Closed.Support.{IsClosed, IsWithin, close_context_support-IsClosed}
use manu.Query.Selection.Examples.{
  thousandths, thousandths-IsFloat, hexadecimal, selects, selection_polls, owners, hash, here, item,
  decision, request, found, runs,
}

abbrev relation : Str → ContextRelation
relation id = record {
  id = id;
  predicate = bytes "calls";
  origin = observed;
  scope = here;
  from_id = bytes "b";
  to_id = bytes "a";
  path = [];
  support_ids = bytes "a" ∷ [];
  provenance = record { producer = none; lineage = none; evidence = [] };
}

abbrev related : Str → ℕ → ContextRelationCandidate ℕ
related id cost = record {
  relation = relation id;
  score = 1000;
  rank = pos 0;
  token_cost = pos cost;
  character_cost = pos cost;
  byte_cost = pos cost;
  tokens = pos 0;
  characters = pos 0;
  bytes = pos 0;
}

abbrev one_relation : ContextSupportClosureRequest ℕ
one_relation = record { request = request; base = found; relations = related (bytes "r") 1 ∷ [] }

abbrev two_relations : ContextSupportClosureRequest ℕ
two_relations = record one_relation {
  relations = related (bytes "r") 1 ∷ related (bytes "s") 2 ∷ [];
}

-- What a run computes with.
closes : Unit {0}
unfolding runs validate_relation validate_own required_ids relation_costs score_valid
    relation_metadata validate_relation_candidate relation_before sorted_relations same_relation
    add_closure_cost fits_closure_budget sum_costs include_audit add_item add_items
    relation_audit_of leave_out take_relation add_with look_for look_for_all close_relation
    close_relations has_scope find_relation is_same count_relation relation_tally closure_result
    relations_valid validate_relation_audit relation_audits_valid validate_closure
    relation_candidates_valid validate_closure_request relation_audits_agree
    validate_closure_against closure close_context_support
closes = tt

abbrev closed_selection : ContextSelectionResult ℕ
closed_selection = record found {
  items = item here (bytes "b") ∷ item here (bytes "a") ∷ [];
  audit =
      decision (bytes "a") true included 4000 4
      ∷ decision (bytes "b") true included 6000 4
      ∷ decision (bytes "c") false excluded_scope 9000 1
      ∷ decision (bytes "d") false excluded_budget 5000 9
      ∷ [];
  item_count = 2;
  token_estimate = 8;
  characters_used = 8;
  bytes_used = 8;
}

abbrev closed : ContextSupportClosureResult ℕ
closed = record {
  selection = closed_selection;
  relations = relation (bytes "r") ∷ [];
  relation_audit =
      record {
        relation_id = bytes "r";
        is_included = true;
        reason = relation_included;
        rank = pos 0;
        score = 1000;
        token_cost = 1;
        character_cost = 1;
        byte_cost = 1;
        missing_ids = [];
      }
      ∷ [];
  item_count = 2;
  relation_count = 1;
  total_count = 3;
  token_estimate = 9;
  characters_used = 9;
  bytes_used = 9;
  support_incomplete = false;
  budget_exhausted = true;
}

-- The context is asked at the start, at the relation, and at each of the two items that it needs.
abbrev polls : Polls
polls = false ∷ false ∷ false ∷ false ∷ []

closes_one : close_context_support owners hash one_relation polls ≡ done closed []
unfolding closes
closes_one = refl

-- Either of two relations fits, the two together do not: there is no result.
closes_two :
    close_context_support owners hash two_relations
      (false ∷ false ∷ false ∷ false ∷ false ∷ false ∷ [])
    ≡ failed invalid_context_budget
unfolding closes
closes_two = refl

-- The second of them alone has a result.
closes_second :
    (r : ContextSupportClosureResult ℕ) × (close_context_support owners hash
        (record one_relation { relations = related (bytes "s") 2 ∷ [] })
        polls
      ≡ done r [])
unfolding closes
closes_second = (_, refl)

close_context_support-IsClosed_example :
    IsClosed one_relation closed × IsWithin owners hash one_relation closed
close_context_support-IsClosed_example =
    close_context_support-IsClosed owners hash one_relation polls [] closed closes_one

few_required : leb (length (required_ids (relation (bytes "r")))) max_context_items ≡ true
unfolding closes
few_required = refl

few_required_too : leb (length (required_ids (relation (bytes "s")))) max_context_items ≡ true
unfolding closes
few_required_too = refl

close_context_support-closure_example :
    close_context_support owners hash two_relations (false ∷ false ∷ polls)
    ≡ (closure owners hash two_relations >>= λ r.
          ensure (require (closure_fits owners hash two_relations r) invalid_context_budget)
          >> give r)
        (false ∷ false ∷ polls)
close_context_support-closure_example =
    close_context_support-closure thousandths-IsFloat owners hash two_relations
      (false ∷ false ∷ polls) (few_required, (few_required_too, tt))

select_context_closes_example :
    close_context_support owners hash (without_relations request found) (false ∷ polls)
    ≡ done (nothing_added found) polls
select_context_closes_example =
    select_context_closes thousandths-IsFloat owners hash hexadecimal request selection_polls []
      found polls selects
