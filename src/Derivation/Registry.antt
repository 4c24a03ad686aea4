-- ===== src/Derivation/Registry.antt =====
-- The registry of rules (internal/derivation/registry.go, types.go), and what Unicode counts as
-- white space or a control character is a parameter.
pub mod Sorting
pub mod Order
use manu.Base.{
  sorted, Bool, true, false, not, ◌&&◌, ◌||◌, Option, none, some, List, [], ◌∷◌, ◌++◌, Str, str_eq,
  str_lt, if◌then◌else◌, ◌⊎◌, inl, inr, bytes,
}
use manu.Derivation.Run.{Error, invalid_rule, duplicate_rule}
use manu.Derivation.Facts.{CanonicalFact}
use manu.Derivation.Batch.{RuleVersion}
use manu.Derivation.Executor.{RegisteredRule}

-- The rule is `none` where it is nil.
pub record Registration : Type 0 where
  pub version : RuleVersion
  pub rule : Option (List CanonicalFact → Option (List CanonicalFact))

unfoldable pub identity : RuleVersion → Str
identity v = v.rule_id ++ 0 ∷ v.version

unfoldable pub rule_before : RegisteredRule → RegisteredRule → Bool
rule_before left right = str_lt (identity left.version) (identity right.version)

unfoldable pub registered : Str → List RegisteredRule → Bool
registered key [] = false
registered key (rule ∷ rest) = str_eq (identity rule.version) key || registered key rest

module _ (valid_identifier : Str → Bool) where
  unfoldable pub valid_version : RuleVersion → Bool
  valid_version v = valid_identifier v.rule_id && valid_identifier v.version

  -- The registry with the rule, in order; a refusal leaves it as it was.
  unfoldable pub register : List RegisteredRule → Registration → Error ⊎ List RegisteredRule
  unfolding valid_version registered sorted rule_before
  register rules registration =
      if not (valid_version registration.version)
      then inl invalid_rule
      else elim registration.rule [
        | none ↦ inl invalid_rule
        | some apply ↦
            if registered (identity registration.version) rules
            then inl duplicate_rule
            else inr (
                sorted rule_before
                  (rules ++ (record { version = registration.version; apply = apply } ∷ [])))
      ]

  unfoldable pub register_all :
      List RegisteredRule → List Registration → Error ⊎ List RegisteredRule
  unfolding register
  register_all rules [] = inr rules
  register_all rules (registration ∷ rest) = elim (register rules registration) [
    | inl e ↦ inl e
    | inr more ↦ register_all more rest
  ]

  unfoldable pub new_registry : List Registration → Error ⊎ List RegisteredRule
  unfolding register_all
  new_registry registrations = register_all [] registrations
