-- ===== src/Derivation/Facts.antt =====
-- The facts that internal/derivation works on, their order and copies (clone.go, executor.go).
-- Participants, values and producers, which the package only hands on, are texts.
use manu.Base.{
  sorted, Bool, true, false, not, all, ◌&&◌, Option, none, some, List, [], ◌∷◌, map, Str, str_eq,
  str_lt, Map, lookup,
}

pub record Scope : Type 0 where
  pub organization_id : Str
  pub source_id : Str
  pub snapshot_id : Str

pub record Lineage : Type 0 where
  pub rule_id : Str
  pub rule_version : Str
  pub input_fact_ids : List Str

pub record Qualifier : Type 0 where
  pub name : Str
  pub value : Str

pub record EvidenceRef : Type 0 where
  pub id : Str
  pub reference : Str

pub record CanonicalFact : Type 0 where
  pub version : Str
  pub id : Str
  pub scope : Scope
  pub predicate : Str
  pub subject : Str
  pub object : Option Str
  pub value : Option Str
  pub qualifiers : List Qualifier
  pub producer : Str
  pub evidence : List EvidenceRef
  pub lineage : Option Lineage

-- What the package fact offers: Validate of a fact, the test of an identifier, which reads Unicode
-- classes, and CanonicalBytes.
pub record FactPackage : Type 0 where
  pub fact_valid : CanonicalFact → Bool
  pub valid_identifier : Str → Bool
  pub canonical_bytes : CanonicalFact → Option Str

abbrev pub no_inputs : List Str → Bool
no_inputs [] = true
no_inputs (id ∷ ids) = false

-- Each input is an identifier, is not the fact, and comes once.
unfoldable pub inputs_valid : (Str → Bool) → Str → List Str → List Str → Bool
inputs_valid valid_identifier id seen [] = true
inputs_valid valid_identifier id seen (input ∷ rest) =
    valid_identifier input
    && not (str_eq input id)
    && all (λ earlier. not (str_eq earlier input)) seen
    && inputs_valid valid_identifier id (input ∷ seen) rest

-- Lineage.Validate for the identifier of the fact that has the lineage.
unfoldable pub lineage_valid : (Str → Bool) → Lineage → Str → Bool
unfolding inputs_valid
lineage_valid valid_identifier l id =
    valid_identifier l.rule_id
    && valid_identifier l.rule_version
    && not (no_inputs l.input_fact_ids)
    && inputs_valid valid_identifier id [] l.input_fact_ids

unfoldable pub same_scope : Scope → Scope → Bool
same_scope a b =
    str_eq a.organization_id b.organization_id
    && str_eq a.source_id b.source_id
    && str_eq a.snapshot_id b.snapshot_id

unfoldable pub clone_fact : CanonicalFact → CanonicalFact
unfolding sorted
clone_fact f = record f {
  qualifiers = sorted (λ l r. str_lt l.name r.name) f.qualifiers;
  evidence = sorted (λ l r. str_lt l.id r.id) f.evidence;
  lineage = elim f.lineage [
    | none ↦ none
    | some l ↦ some (record l { input_fact_ids = sorted str_lt l.input_fact_ids })
  ];
}

abbrev pub values : Map CanonicalFact → List CanonicalFact
values [] = []
values ((id, f) ∷ rest) = f ∷ values rest

abbrev pub is_known : Map CanonicalFact → Str → Bool
is_known known id = elim (lookup id known) [ none ↦ false | some f ↦ true ]

-- orderedFacts, for a map that holds each fact at its identifier.
unfoldable pub ordered_facts : Map CanonicalFact → List CanonicalFact
unfolding sorted clone_fact
ordered_facts known = sorted (λ l r. str_lt l.id r.id) (map clone_fact (values known))
