-- ===== src/Query/Context.antt =====
-- The parts of internal/query/context.go that context selection works on: scopes, limits, items and
-- the audit of a decision. Of a fact, an entity and an evidence unit, which other packages own, the
-- fields that this package reads.
pub mod Validate
use manu.Base.{
  ℕ, zero, suc, ◌+◌, ℤ, pos, ltb_ℤ, Bool, true, false, not, all, ◌&&◌, ◌||◌, Option, none, some,
  List, [], ◌∷◌, length, Str, str_eq, is_empty, trim_space, leb, ◌==◌, if◌then◌else◌,
}
use manu.Query.Check.{
  Check, require, ◌then◌, invalid_context_budget, invalid_context_scope, invalid_context_reference,
}

pub record Scope : Type 0 where
  pub organization_id : Str
  pub source_id : Str
  pub snapshot_id : Str

pub record Locator : Type 0 where
  pub uri : Str
  pub source_id : Str
  pub artifact_id : Str
  pub path : Str
  pub member : Str
  pub start_line : ℤ
  pub start_column : ℤ
  pub end_line : ℤ
  pub end_column : ℤ
  pub byte_offset : ℤ
  pub byte_length : ℤ

pub record Fact : Type 0 where
  pub id : Str
  pub scope : Scope
  pub has_lineage : Bool
  pub locators : List Locator
  pub content : Str

pub record Entity : Type 0 where
  pub id : Str
  pub content : Str

pub record EvidenceUnit : Type 0 where
  pub id : Str
  pub scope : Scope
  pub locator : Locator
  pub content : Str

pub record Reference : Type 0 where
  pub id : Str
  pub content : Str

pub record ContextProvenance : Type 0 where
  pub producer : Option Str
  pub lineage : Option Str
  pub evidence : List Reference

-- Any other text is `other_item` or `other_origin`.
pub data ContextItemKind : Type 0 where
  fact_item entity_item evidence_item : ContextItemKind
  other_item : Str → ContextItemKind

pub data ContextKnowledgeKind : Type 0 where
  observed derived generated curated : ContextKnowledgeKind
  other_origin : Str → ContextKnowledgeKind

pub record ContextItem : Type 0 where
  pub id : Str
  pub kind : ContextItemKind
  pub origin : ContextKnowledgeKind
  pub scope : Scope
  pub fact : Option Fact
  pub entity : Option Entity
  pub evidence : Option EvidenceUnit
  pub locator : Locator
  pub provenance : ContextProvenance
  pub support_ids : List Str

pub record ContextLimits : Type 0 where
  pub max_tokens : ℤ
  pub max_items : ℤ
  pub max_characters : ℤ
  pub max_bytes : ℤ

-- The checks of the packages that own what an item holds, of a locator in a scope, and of the text of
-- an identifier: UTF-8, control characters, white space and the pattern of a credential.
pub record Owners : Type 0 where
  pub fact_valid : Fact → Bool
  pub entity_valid : Entity → Bool
  pub evidence_valid : EvidenceUnit → Bool
  pub producer_valid : Str → Bool
  pub lineage_valid : Str → Bool
  pub reference_valid : Scope → Reference → Bool
  pub predicate_valid : Str → Bool
  pub locator_valid : Scope → Locator → Bool
  pub token_valid : Str → Bool
  pub text_valid : Str → Bool

abbrev pub max_context_identifier_bytes : ℕ
max_context_identifier_bytes = 256

abbrev pub max_context_items : ℕ
max_context_items = 10000

abbrev pub max_context_audits : ℕ
max_context_audits = 20000

abbrev pub max_context_tokens : ℕ
max_context_tokens = 1048576

abbrev pub max_context_characters : ℕ
max_context_characters = 16777216

abbrev pub max_context_bytes : ℕ
max_context_bytes = 16777216

abbrev pub mem_str : Str → List Str → Bool
mem_str id [] = false
mem_str id (x ∷ xs) = str_eq x id || mem_str id xs
