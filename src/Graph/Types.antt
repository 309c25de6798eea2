-- ===== src/Graph/Types.antt =====
-- src/popperpad/core/graph.py: the records of a snapshot.
use popper_pad.Prelude.{
  ℕ, ◌+◌, ◌==◌, Bool, true, false, ◌&&◌, leb, Option, List, [], ◌∷◌, String, codes, if◌then◌else◌,
}

-- `RecipeRecord.verdict_on_pass`, whose constructor refuses other texts.
pub data Verdict : Type 0 where
  support refute : Verdict

-- `TruthEdge.kind`, whose constructor refuses other texts.
pub data EdgeKind : Type 0 where
  supports refutes : EdgeKind

-- `StatusResult.state`
pub data Status : Type 0 where
  unknown supported falsified disputed : Status

pub record RecipeRecord : Type 0 where
  pub ref : String
  pub verdict_on_pass : Verdict

pub record EvidenceRecord : Type 0 where
  pub ref : String
  pub recipe_ref : String
  pub context_ref : Option String
  pub subject_refs : List String
  pub status : String

pub record TruthEdge : Type 0 where
  pub ref : String
  pub kind : EdgeKind
  pub from_ref : String
  pub to_ref : String
  pub context_ref : Option String
  pub evidence_refs : List String

pub record StatusSnapshot : Type 0 where
  pub hypothesis_ref : String
  pub context_ref : Option String
  pub accepted_recipe_refs : List String
  pub edges : List TruthEdge
  pub evidence : List EvidenceRecord
  pub recipes : List RecipeRecord

pub record StatusResult : Type 0 where
  pub state : Status
  pub supports : List String
  pub refutes : List String

pub record Obligation : Type 0 where
  pub obligation_id : String
  pub recipe_ref : String

pub record SemanticEdge : Type 0 where
  pub ref : String
  pub from_ref : String
  pub to_ref : String
  pub tag : String
  pub obligations : List Obligation
  pub evidence_refs : List String

pub record TransferSnapshot : Type 0 where
  pub edges : List SemanticEdge
  pub evidence : List EvidenceRecord

pub record OpenObligation : Type 0 where
  pub edge_ref : String
  pub obligation_id : String
  pub recipe_ref : String

pub record TransferPath : Type 0 where
  pub edge_refs : List String
  pub obligations_open : List OpenObligation

lower : ℕ → ℕ
lower c = if leb b'A' c && leb c b'Z' then c + 32 else c

is_lower_of : List ℕ → List ℕ → Bool
unfolding lower
is_lower_of [] [] = true
is_lower_of (c ∷ cs) (d ∷ ds) = (lower c == d) && is_lower_of cs ds
is_lower_of _ _ = false

-- `status.lower() == "pass"`: no character beyond ASCII has p, a or s for its lower case.
unfoldable pub is_pass : String → Bool
unfolding is_lower_of
is_pass status = is_lower_of (codes status) (codes "pass")
