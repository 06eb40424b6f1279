-- ===== src/Tests/Samples.antt =====
-- Sample data for the tests.
use Prim.Native.String.{◌++◌}
use contextrail.Prelude.{false, String, none, some, [], ◌∷◌}
use contextrail.Models.Value.{Value, missing, str, dict, Fields, end, field}
use contextrail.Models.Subject.{Subject, hris, employee}
use contextrail.Models.Verdict.{allow}
use contextrail.Models.Action.{planned, Action}
use contextrail.Canonical.{Encoder}
use contextrail.Policy.Python.{Python}
use contextrail.Policy.Schema.{Rule}
use contextrail.Policy.Engine.{Engine, Request}

-- texts in quotes and the items of dicts in their order
abbrev mutual
  print : Value → String
  print (str s) = "'" ++ s ++ "'"
  print (dict d) = "{" ++ print_fields d ++ "}"
  print _ = "0"

  print_fields : Fields → String
  print_fields end = ""
  print_fields (field k v d) = k ++ ":" ++ print v ++ "," ++ print_fields d

abbrev pub sample_encoder : Encoder
sample_encoder = record {
  strftime = λ n. "1970-01-01T00:00:00Z";
  isoformat = λ n. "1970-01-01";
  dumps = print;
  sha256 = λ s. "#" ++ s;
}

abbrev pub sample_python : Python
sample_python = record {
  condition = λ s. none;
  is_dotted = λ s. false;
  safe_load = λ s. str s;
  getattr = λ v k. missing;
}

abbrev pub sample_subject : Subject
sample_subject = record {
  source = hris;
  source_id = "E1";
  display_name = "Ada";
  employment_type = employee;
  role = some "engineer";
  team = some "core";
  seniority = none;
  manager_id = some "p9";
  start_date = none;
  end_date = none;
  sow_repos = [];
}

abbrev pub sample_target : Fields
sample_target = field "subject_id" (str "E1") (field "entitlement" (str "wiki") end)

abbrev pub sample_action : Action
sample_action = record {
  id = "G01";
  kind = "grant";
  target = sample_target;
  params_hash = "h1";
  verdict = none;
  rule_id = none;
  clause = none;
  approver = none;
  state = planned;
  expires_at = none;
}

abbrev pub sample_rule : Rule
sample_rule = record {
  id = "POL-WKI-001";
  title = "Wiki";
  okf = "okf";
  clause = "1";
  clause_text = "Everyone in the company may read the wiki.";
  applies_to = [];
  match = [];
  conditions = [];
  verdict = allow;
  approver = none;
  escalate = none;
  else_verdict = none;
  terminal = false;
  expires_after = some "4h";
  alternative = none;
}

abbrev pub sample_engine : Engine
sample_engine = record { rules = sample_rule ∷ []; directory = none }

abbrev pub sample_request : Request
sample_request = record { role = end; run = end; decision = end; disabled = [] }
