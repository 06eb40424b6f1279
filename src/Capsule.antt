-- ===== src/Capsule.antt =====
-- engine/contextrail/capsule.py: the digest of a case file, sealing, and receipt of a sealed one.
pub mod Seal
use contextrail.Prelude.{
  Bool, true, false, String, Option, none, some, ◌>>=◌, str_eq, if◌then◌else◌,
}
use contextrail.Models.Value.{Value, dict}
use contextrail.Models.Case.{CaseFile}
use contextrail.Models.Dump.{dump_content}
use contextrail.Canonical.{Encoder, sha256_hex}

-- What a receiver gets: the value, DigestMismatch with the digest expected and the one found, or
-- another error.
pub data Checked {ℓ} (A : Type ℓ) : Type ℓ where
  ok : A → Checked A
  digest_mismatch : Option String → String → Checked A
  invalid : Checked A

abbrev pub same_digest : Option String → String → Bool
same_digest none h = false
same_digest (some d) h = str_eq d h

unfoldable pub compute_digest : Encoder → CaseFile → Option String
compute_digest enc c = sha256_hex enc (dict (dump_content c))

unfoldable pub seal : Encoder → CaseFile → Option CaseFile
seal enc c = do h ← compute_digest enc c; some (record c { digest = some h })

abbrev pub check_digest : CaseFile → Option String → Checked CaseFile
check_digest c none = invalid
check_digest c (some actual) =
    if same_digest c.digest actual then ok c else digest_mismatch c.digest actual

unfoldable pub verify : Encoder → CaseFile → Checked CaseFile
verify enc c = check_digest c (compute_digest enc c)

abbrev pub verify_parsed : Encoder → Option CaseFile → Checked CaseFile
verify_parsed enc none = invalid
verify_parsed enc (some c) = verify enc c

-- `model_validate` is that of pydantic for CaseFile; `none` is its validation error.
unfoldable pub receive : Encoder → (Value → Option CaseFile) → Value → Checked CaseFile
receive enc model_validate payload = verify_parsed enc (model_validate payload)
