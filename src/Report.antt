-- ===== src/Report.antt =====
-- backend/app/schemas/diagnosis.py, and the texts that a diagnosis is written with.
use k8s_incident_agent.Prelude.{ℕ, Bool, Option, List, [], ◌∷◌, ◌++◌, String}

pub data FaultCategory : Type 0 where
  healthy service_not_found selector_mismatch image_pull_error oom_killed crash_loop : FaultCategory
  readiness_probe_error unknown : FaultCategory

pub data DiagnosisStatus : Type 0 where
  healthy unhealthy unknown : DiagnosisStatus

pub data EvidenceSource : Type 0 where
  service pod event deployment endpoint_slice collector : EvidenceSource

-- The parts of an f-string: what stands between the braces, before Python prints it.
pub data Piece : Type 0 where
  literal text quoted : String → Piece
  number : ℕ → Piece
  text_or_none quoted_or_none : Option String → Piece
  number_or_none : Option ℕ → Piece
  mapping : List (String × String) → Piece

abbrev pub Text : Type 0
Text = List Piece

-- separator.join(texts)
abbrev pub join : String → List Text → Text
join separator [] = []
join separator (t ∷ []) = t
join separator (t ∷ u ∷ us) = t ++ literal separator ∷ join separator (u ∷ us)

pub record DiagnosisEvidenceReference : Type 0 where
  pub evidence_id : Text
  pub source : EvidenceSource
  pub resource_name : String
  pub summary : Text

-- The confidence in hundredths.
pub record DiagnosisResult : Type 0 where
  pub namespace : String
  pub service_name : String
  pub status : DiagnosisStatus
  pub fault_category : FaultCategory
  pub root_cause : Text
  pub confidence : ℕ
  pub evidence : List DiagnosisEvidenceReference
  pub recommended_action : Option String
  pub requires_approval : Bool
