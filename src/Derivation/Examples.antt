-- ===== src/Derivation/Examples.antt =====
-- A derivation of one fact from another, and the theorems at it.
use manu.Base.{
  sorted, place, ◌≡◌, refl, Bool, false, not, none, some, List, [], ◌∷◌, Str, bytes, str_eq, str_lt,
  lookup, insert, arith, pos, All, map, is_empty, inr,
}
use manu.Derivation.Run.{Polls, done, ◌>>=◌, ◌>>◌, poll}
use manu.Derivation.Facts.{
  Scope, CanonicalFact, FactPackage, same_scope, clone_fact, ordered_facts, lineage_valid,
  inputs_valid,
}
use manu.Derivation.Batch.{
  DerivationLimits, no_codes, accept_candidate_batch, validate_limits, check_shapes, check_support,
  with_keys, fresh_facts, within_limits, limits_reached, unique_facts, new_facts, keyless,
  supported, valid_candidate_shape,
}
use manu.Derivation.Executor.{
  RegisteredRule, Progress, DerivationResult, prepare_inputs, apply_rules, derive_loop, iterate,
  within_iterations, derive_with_limits, add_facts, advance, valid_result, increasing,
  support_listed, lists, started,
}
use manu.Derivation.Growth.{Grown, derive_loop-Grown}
use manu.Derivation.Growth.Accepted.{Ready, accept_candidate_batch-Ready}
use manu.Derivation.Growth.Limits.{Fits, derive_loop-Fits}
use manu.Derivation.FixedPoint.{derive_loop_settles}
use manu.Derivation.FixedPoint.Silence.{Silent}
use mathlib.Core.List.{Perm}
use mathlib.Core.List.Perm
use manu.Derivation.Registry.{
  Registration, new_registry, register_all, register, registered, valid_version, rule_before,
  identity,
}
use manu.Derivation.Registry.Order.{new_registry_order_irrelevant}
use manu.Derivation.Registry.Sorting.{key}
use manu.Derivation.Soundness.{Sound, derive_with_limits-Sound, derive_with_limits_ends}

abbrev acme : Scope
acme = record { organization_id = bytes "acme"; source_id = bytes "s"; snapshot_id = bytes "1" }

abbrev observed : CanonicalFact
observed = record {
  version = bytes "v1alpha1";
  id = bytes "a";
  scope = acme;
  predicate = bytes "calls";
  subject = bytes "x";
  object = some (bytes "y");
  value = none;
  qualifiers = [];
  producer = bytes "java";
  evidence = [];
  lineage = none;
}

abbrev derived : CanonicalFact
derived = record observed {
  id = bytes "b";
  predicate = bytes "depends_on";
  lineage = some (record {
    rule_id = bytes "dependency";
    rule_version = bytes "1";
    input_fact_ids = bytes "a" ∷ [];
  });
}

-- Of the checks, those that the example needs.
abbrev checks : FactPackage
checks = record {
  fact_valid = λ f. not (str_eq f.id []);
  valid_identifier = λ s. not (is_empty s);
  canonical_bytes = λ f. some f.predicate;
}

abbrev rule : RegisteredRule
rule = record {
  version = record { rule_id = bytes "dependency"; version = bytes "1" };
  apply = λ view. some (derived ∷ []);
}

abbrev limits : DerivationLimits
limits = record { max_iterations = pos 5; max_facts = pos 3; max_fanout = pos 0 }

abbrev found : DerivationResult
found = record { facts = observed ∷ derived ∷ []; codes = no_codes }

-- What a run computes with.
runs : Unit {0}
unfolding derive_with_limits prepare_inputs derive_loop iterate within_iterations apply_rules
    accept_candidate_batch validate_limits check_shapes check_support with_keys fresh_facts
    within_limits limits_reached unique_facts new_facts keyless supported valid_candidate_shape
    add_facts advance valid_result increasing support_listed lists ◌>>=◌ ◌>>◌ poll same_scope sorted
    place lineage_valid inputs_valid clone_fact ordered_facts str_eq str_lt lookup insert
runs = tt

-- The context is asked, and stays in force.
abbrev polls : Polls
polls = false ∷ false ∷ []

derives :
    derive_with_limits checks 6 (rule ∷ []) (observed ∷ []) limits polls ≡ done (some found) []
unfolding runs
derives = refl

derive_with_limits-Sound_example : Sound checks (rule ∷ []) limits (observed ∷ []) found
derive_with_limits-Sound_example =
    derive_with_limits-Sound checks (rule ∷ []) limits 6 (observed ∷ []) found polls [] derives

derive_with_limits_ends_example :
    ¬ (derive_with_limits checks 6 (rule ∷ []) (observed ∷ []) limits polls ≡ done none [])
derive_with_limits_ends_example =
    derive_with_limits_ends checks (rule ∷ []) limits 6 (observed ∷ []) polls [] refl (omega arith)

abbrev begun : Progress
begun = started ((bytes "a", observed) ∷ []) 1

abbrev last : Progress
last = record {
  known = (bytes "a", observed) ∷ (bytes "b", derived) ∷ [];
  pending = 0;
  codes = no_codes;
  accepted = false;
}

loops : derive_loop checks 6 (rule ∷ []) acme limits 0 begun [] ≡ done (some last) []
unfolding runs
loops = refl

derive_loop-Grown_example : Grown acme begun.known last.known
derive_loop-Grown_example =
    derive_loop-Grown checks acme limits 6 (rule ∷ []) 0 begun last [] [] loops

derive_loop-Fits_example : Fits limits last.known
derive_loop-Fits_example =
    derive_loop-Fits checks acme limits 6 (rule ∷ []) 0 begun last [] [] refl loops

derive_loop_settles_example : All (Silent last.known) (rule ∷ [])
derive_loop_settles_example =
    derive_loop_settles checks (rule ∷ []) acme limits 6 0 begun last [] [] loops refl (omega arith)

accepts :
    accept_candidate_batch checks (derived ∷ []) acme rule.version begun.known limits []
    ≡ done (derived ∷ [], no_codes) []
unfolding runs
accepts = refl

accept_candidate_batch-Ready_example : All (Ready acme begun.known) (derived ∷ [])
accept_candidate_batch-Ready_example =
    accept_candidate_batch-Ready checks acme limits rule.version begun.known (derived ∷ [])
      (derived ∷ [], no_codes) [] [] accepts

abbrev register_dependency : Registration
register_dependency = record {
  version = record { rule_id = bytes "dependency"; version = bytes "1" };
  rule = some (λ view. some (derived ∷ []));
}

abbrev register_membership : Registration
register_membership = record {
  version = record { rule_id = bytes "membership"; version = bytes "1" };
  rule = some (λ view. some []);
}

abbrev accept_text : Str → Bool
accept_text s = not (is_empty s)

abbrev both : List RegisteredRule
both =
    rule
    ∷ record {
      version = record { rule_id = bytes "membership"; version = bytes "1" };
      apply = λ view. some [];
    }
    ∷ []

registers : new_registry accept_text (register_membership ∷ register_dependency ∷ []) ≡ inr both
unfolding runs new_registry register_all register registered valid_version rule_before identity
registers = refl

registers_too : new_registry accept_text (register_dependency ∷ register_membership ∷ []) ≡ inr both
unfolding runs new_registry register_all register registered valid_version rule_before identity
registers_too = refl

new_registry_order_irrelevant_example : Perm both both × (map key both ≡ map key both)
new_registry_order_irrelevant_example =
    new_registry_order_irrelevant accept_text (register_membership ∷ register_dependency ∷ [])
      (register_dependency ∷ register_membership ∷ []) both both (Perm.swap _ _ []) registers
      registers_too
