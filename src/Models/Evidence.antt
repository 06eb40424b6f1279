-- ===== src/Models/Evidence.antt =====
-- `Evidence` of engine/contextrail/models.py: what was retrieved, and how far it is trusted.
use contextrail.Prelude.{ℕ, Bool, true, false, String, Option, none, some, if◌then◌else◌}

pub data EvidenceKind : Type 0 where
  record_kind policy document message precedent : EvidenceKind

pub data Trust : Type 0 where
  record_trust curated untrusted : Trust

-- _ALLOWED_TRUST
unfoldable pub may_trust : EvidenceKind → Trust → Bool
may_trust record_kind record_trust = true
may_trust policy curated = true
may_trust precedent curated = true
may_trust document untrusted = true
may_trust message untrusted = true
may_trust _ _ = false

pub record Evidence : Type 0 where
  pub id : String
  pub kind : EvidenceKind
  pub source : String
  pub uri : String
  pub excerpt : String
  pub retrieved_at : ℕ
  pub last_verified : Option ℕ
  pub stale : Bool
  pub trust : Trust

-- `Evidence._trust_matches_kind`; `none` is the validation error.
unfoldable pub checked : Evidence → Option Evidence
unfolding may_trust
checked e = if may_trust e.kind e.trust then some e else none
