-- ===== src/Models/Dump.antt =====
-- `model_dump` of the models that a case file holds (engine/contextrail/models.py), mode="python".
use contextrail.Prelude.{ℕ, ◌*◌, String, List, [], ◌∷◌}
use contextrail.Models.Value.{
  Value, bool, str, date, datetime, list, dict, Items, nil, cons, Fields, end, field,
}
use contextrail.Models.Subject.{dump, texts, optional}
use contextrail.Models.Evidence.{
  EvidenceKind, record_kind, policy, document, message, precedent, Trust, record_trust, curated,
  untrusted, Evidence,
}
use contextrail.Models.Verdict.{VerdictKind, allow, hold, refuse}
use contextrail.Models.Action.{
  ActionState, planned, awaiting, approved, refused, executed, verified, failed, unknown, Action,
}
use contextrail.Models.Case.{CaseFile}

abbrev pub kind_name : EvidenceKind → String
kind_name record_kind = "record"
kind_name policy = "policy"
kind_name document = "document"
kind_name message = "message"
kind_name precedent = "precedent"

abbrev pub trust_name : Trust → String
trust_name record_trust = "record"
trust_name curated = "curated"
trust_name untrusted = "untrusted"

abbrev pub verdict_name : VerdictKind → String
verdict_name allow = "ALLOW"
verdict_name hold = "HOLD"
verdict_name refuse = "REFUSE"

abbrev pub state_name : ActionState → String
state_name planned = "planned"
state_name awaiting = "awaiting"
state_name approved = "approved"
state_name refused = "refused"
state_name executed = "executed"
state_name verified = "verified"
state_name failed = "failed"
state_name unknown = "unknown"

-- Microseconds of a time in minutes.
abbrev at_minute : ℕ → Value
at_minute n = datetime (60000000 * n)

abbrev pub dump_evidence : Evidence → Fields
dump_evidence e = field "id" (str e.id) (
    field "kind" (str (kind_name e.kind)) (
      field "source" (str e.source) (
        field "uri" (str e.uri) (
          field "excerpt" (str e.excerpt) (
            field "retrieved_at" (datetime e.retrieved_at) (
              field "last_verified" (optional date e.last_verified)
                (field "stale" (bool e.stale) (field "trust" (str (trust_name e.trust)) end))))))))

abbrev pub dump_action : Action → Fields
dump_action a = field "id" (str a.id) (
    field "kind" (str a.kind) (
      field "target" (dict a.target) (
        field "params_hash" (str a.params_hash) (
          field "verdict" (optional (λ v. str (verdict_name v)) a.verdict) (
            field "rule_id" (optional str a.rule_id) (
              field "clause" (optional str a.clause) (
                field "approver" (optional str a.approver) (
                  field "state" (str (state_name a.state))
                    (field "expires_at" (optional at_minute a.expires_at) end)))))))))

abbrev pub dicts {ℓ} : {A : Type ℓ} → (A → Fields) → List A → Items
dicts f [] = nil
dicts f (x ∷ xs) = cons (dict (f x)) (dicts f xs)

-- The fields of a case file before its digest, and what follows them.
abbrev pub dump_with : Fields → CaseFile → Fields
dump_with rest c = field "run_id" (str c.run_id) (
    field "request_text" (str c.request_text) (
      field "intent" (str c.intent) (
        field "subject" (dict (dump c.subject)) (
          field "peer" (optional (λ s. dict (dump s)) c.peer) (
            field "evidence" (list (dicts dump_evidence c.evidence)) (
              field "constraints" (list (texts c.constraints)) (
                field "actions" (list (dicts dump_action c.actions)) (
                  field "decisions" (list (dicts (λ (d : Fields). d) c.decisions))
                    (field "open_blockers" (list (texts c.open_blockers)) rest)))))))))

-- model_dump(exclude={"digest"})
unfoldable pub dump_content : CaseFile → Fields
dump_content c = dump_with end c

-- model_dump()
unfoldable pub dump_case : CaseFile → Fields
dump_case c = dump_with (field "digest" (optional str c.digest) end) c

-- The texts that pydantic writes for dates and times.
pub record JsonMode : Type 0 where
  pub date_text : ℕ → String
  pub datetime_text : ℕ → String

-- model_dump(mode="json") of what mode="python" gives
unfoldable mutual
  pub jsonable : JsonMode → Value → Value
  jsonable js (date n) = str (js.date_text n)
  jsonable js (datetime n) = str (js.datetime_text n)
  jsonable js (list xs) = list (jsonable_items js xs)
  jsonable js (dict d) = dict (jsonable_fields js d)
  jsonable js v = v

  pub jsonable_items : JsonMode → Items → Items
  jsonable_items js nil = nil
  jsonable_items js (cons x xs) = cons (jsonable js x) (jsonable_items js xs)

  pub jsonable_fields : JsonMode → Fields → Fields
  jsonable_fields js end = end
  jsonable_fields js (field k v d) = field k (jsonable js v) (jsonable_fields js d)
