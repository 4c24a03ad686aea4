-- ===== src/Query/Context/Validate.antt =====
-- The validation of scopes, limits, provenance and items in internal/query/context.go, validation.go and
-- response.go.
use manu.Base.{
  ℕ, zero, suc, ◌+◌, ℤ, pos, ltb_ℤ, Bool, true, false, not, all, ◌&&◌, ◌||◌, Option, none, some,
  List, [], ◌∷◌, length, Str, str_eq, is_empty, trim_space, leb, ◌==◌, if◌then◌else◌,
}
use manu.Query.Check.{
  Check, require, ◌then◌, invalid_context_budget, invalid_context_scope, invalid_context_reference,
}
use manu.Query.Context.{
  Fact, Entity, EvidenceUnit, mem_str, Scope, Locator, Reference, ContextProvenance,
  ContextItemKind, fact_item, entity_item, evidence_item, ContextKnowledgeKind, derived,
  other_origin, ContextItem, ContextLimits, Owners, max_context_identifier_bytes, max_context_items,
  max_context_tokens, max_context_characters, max_context_bytes,
}

abbrev is_hex : ℕ → Bool
is_hex c = leb 48 c && leb c 57 || leb 97 c && leb c 102 || leb 65 c && leb c 70

abbrev lower : ℕ → ℕ
lower c = if leb 65 c && leb c 90 then c + 32 else c

-- strings.EqualFold on ASCII texts; the scopes that it compares are made of UUIDs.
unfoldable pub equal_fold : Str → Str → Bool
equal_fold [] [] = true
equal_fold (a ∷ s) (b ∷ t) = lower a == lower b && equal_fold s t
equal_fold _ _ = false

unfoldable pub without_dashes : Str → Str
without_dashes [] = []
without_dashes (c ∷ s) = if c == 45 then without_dashes s else c ∷ without_dashes s

-- Whether the byte at a position is a dash.
unfoldable pub dash_at : ℕ → Str → Bool
dash_at n [] = false
dash_at zero (c ∷ s) = c == 45
dash_at (suc n) (c ∷ s) = dash_at n s

unfoldable pub validate_uuid : Str → Bool
unfolding without_dashes dash_at
validate_uuid s =
    length s == 36
    && dash_at 8 s
    && dash_at 13 s
    && dash_at 18 s
    && dash_at 23 s
    && length (without_dashes s) == 32
    && all is_hex (without_dashes s)

unfoldable pub is_sha256 : Str → Bool
is_sha256 s = length s == 64 && all (λ c. lower c == c) s && all is_hex s

unfoldable pub scope_valid : Scope → Bool
unfolding validate_uuid
scope_valid s =
    validate_uuid s.organization_id && validate_uuid s.source_id && validate_uuid s.snapshot_id

unfoldable pub same_scope : Scope → Scope → Bool
unfolding equal_fold
same_scope l r =
    equal_fold l.organization_id r.organization_id
    && equal_fold l.source_id r.source_id
    && equal_fold l.snapshot_id r.snapshot_id

abbrev pub within : ℤ → ℕ → Bool
within limit bound = not (ltb_ℤ limit (pos 1)) && not (ltb_ℤ (pos bound) limit)

unfoldable pub limits_valid : ContextLimits → Bool
limits_valid l =
    within l.max_tokens max_context_tokens
    && within l.max_items max_context_items
    && within l.max_characters max_context_characters
    && within l.max_bytes max_context_bytes

abbrev pub valid_knowledge_kind : ContextKnowledgeKind → Bool
valid_knowledge_kind (other_origin s) = false
valid_knowledge_kind _ = true

abbrev is_derived : ContextKnowledgeKind → Bool
is_derived derived = true
is_derived _ = false

abbrev no_number : ℤ → Bool
no_number (pos zero) = true
no_number _ = false

unfoldable pub is_zero_locator : Locator → Bool
is_zero_locator l =
    is_empty l.uri
    && is_empty l.source_id
    && is_empty l.artifact_id
    && is_empty l.path
    && is_empty l.member
    && no_number l.start_line
    && no_number l.start_column
    && no_number l.end_line
    && no_number l.end_column
    && no_number l.byte_offset
    && no_number l.byte_length

unfoldable pub locator_for_validation : ContextItem → Locator
unfolding is_zero_locator
locator_for_validation i = if not (is_zero_locator i.locator) then i.locator else elim i.evidence [
  | some unit ↦ unit.locator
  | none ↦ elim i.fact [
    | none ↦ i.locator
    | some fact ↦ elim fact.locators [ [] ↦ i.locator | l ∷ ls ↦ l ]
  ]
]

module _ (owners : Owners) where
  unfoldable pub valid_context_id : Str → Bool
  valid_context_id s =
      let value = trim_space s in
      not (is_empty value)
      && leb (length value) max_context_identifier_bytes
      && owners.token_valid value

  -- Each text passes the test and comes once.
  unfoldable pub distinct_valid : (Str → Bool) → List Str → List Str → Bool
  distinct_valid valid seen [] = true
  distinct_valid valid seen (s ∷ rest) =
      valid s && not (mem_str s seen) && distinct_valid valid (s ∷ seen) rest

  unfoldable pub validate_context_ids : List Str → ℕ → Bool
  unfolding distinct_valid valid_context_id
  validate_context_ids ids most = leb (length ids) most && distinct_valid valid_context_id [] ids

  unfoldable pub references_valid : Scope → List Str → List Reference → Bool
  unfolding valid_context_id
  references_valid scope seen [] = true
  references_valid scope seen (r ∷ rest) =
      owners.reference_valid scope r
      && valid_context_id r.id
      && not (mem_str r.id seen)
      && references_valid scope (r.id ∷ seen) rest

  abbrev passes : (Str → Bool) → Option Str → Bool
  passes valid none = true
  passes valid (some s) = valid s

  unfoldable pub validate_provenance : ContextProvenance → Scope → Check
  unfolding references_valid
  validate_provenance p scope =
      require (leb (length p.evidence) max_context_items) invalid_context_budget
      then require (passes owners.producer_valid p.producer) invalid_context_reference
      then require (passes owners.lineage_valid p.lineage) invalid_context_reference
      then require (references_valid scope [] p.evidence) invalid_context_reference

  -- The payload is the one that the kind names, of the item's identifier and scope.
  unfoldable pub payload_valid :
      ContextItem → ContextItemKind → Option Fact → Option Entity → Option EvidenceUnit → Bool
  unfolding same_scope
  payload_valid i fact_item (some fact) none none =
      str_eq fact.id i.id
      && same_scope fact.scope i.scope
      && owners.fact_valid fact
      && (not fact.has_lineage || is_derived i.origin)
  payload_valid i entity_item none (some entity) none =
      str_eq entity.id i.id && owners.entity_valid entity
  payload_valid i evidence_item none none (some unit) =
      str_eq unit.id i.id && same_scope unit.scope i.scope && owners.evidence_valid unit
  payload_valid i _ _ _ _ = false

  unfoldable pub validate_item : ContextItem → Check
  unfolding valid_context_id scope_valid validate_provenance validate_context_ids payload_valid
      locator_for_validation
  validate_item i =
      require (valid_context_id i.id && valid_knowledge_kind i.origin) invalid_context_reference
      then require (scope_valid i.scope) invalid_context_scope
      then validate_provenance i.provenance i.scope
      then require (validate_context_ids i.support_ids max_context_items) invalid_context_reference
      then require (payload_valid i i.kind i.fact i.entity i.evidence) invalid_context_reference
      then require (owners.locator_valid i.scope (locator_for_validation i))
          invalid_context_reference
