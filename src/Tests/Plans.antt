-- ===== src/Tests/Plans.antt =====
-- A resolved request, its evidence and its plan.
use contextrail.Prelude.{
  str_eq, Option, none, some, get_or, length, List, [], ◌∷◌, ◌++◌, ◌≡◌, refl, true, false,
  if◌then◌else◌,
}
use contextrail.Models.Value.{Fields, str, dict, list, nil, end, field}
use contextrail.Models.Evidence.{policy, curated, Evidence}
use contextrail.Models.Action.{Action}
use contextrail.Policy.Engine.{Engine}
use contextrail.Rail.Govern.{CompileInputs, Governed, request_of, evaluate_all_actions}
use contextrail.Rail.Plan.{transfer_revokes, build_plan}
use contextrail.Rail.Ordered.{by_class, build_plan-by_class}
use contextrail.Rail.Discover.{
  same_as_peer, request, Intent, Person, found_one, connector_error, Hris, Discovery, needs_subject,
  is_same_as_peer, lookup, discover,
}
use contextrail.Rail.Resolved.{IsOnly, IsPeer, discover-IsExact}
use contextrail.Tests.Samples.{sample_encoder, sample_python, sample_subject, sample_engine}

abbrev ada : Person
ada = record { fields = end; subject = record sample_subject { source_id = "E-0001" } }

abbrev grace : Person
grace = record {
  fields = end;
  subject = record sample_subject { source_id = "E-0002"; display_name = "Grace" };
}

abbrev people : Hris
people = record {
  read = λ id. connector_error;
  find_by_name = λ name. some ((if str_eq name "Ada" then ada else grace) ∷ []);
}

abbrev same_access : Intent
same_access = record {
  intent = same_as_peer;
  kind = request;
  subject_mention = some "Ada";
  peer_mention = some "Grace";
  dates = [];
  extractor = "heuristic";
}

abbrev found : Discovery
found = record {
  is_resolved = true;
  intent = same_access;
  subject = some ada;
  peer = some grace;
  needs = [];
}

resolved : discover people same_access none none ≡ some found
unfolding discover contextrail.Rail.Discover.resolve_one lookup contextrail.Rail.Discover.is_id
resolved = refl

discover-IsExact_example :
    (needs_subject same_as_peer ≡ true → (p : Person) × (some ada ≡ some p))
    × ((p : Person) → some ada ≡ some p → IsOnly people (some "Ada") none p)
    × (is_same_as_peer same_as_peer ≡ true
        → (q : Person) × (some grace ≡ some q) × IsPeer people same_access (some ada) none q)
discover-IsExact_example = discover-IsExact people same_access none none found resolved refl

abbrev old_policy : Evidence
old_policy = record {
  id = "EV-1";
  kind = policy;
  source = "policy";
  uri = "okf#1";
  excerpt = "Ask.";
  retrieved_at = 0;
  last_verified = some 700000;
  stale = false;
  trust = curated;
}

abbrev wiki : Fields
wiki = field "system" (str "wiki") (field "role_scope" (list nil) end)

abbrev inputs : CompileInputs
inputs = record {
  subject_holdings = "wiki" ∷ [];
  peer_holdings = [];
  catalog = field "wiki" (dict wiki) end;
  role = end;
  evidence = [];
  blockers = [];
}

abbrev moved : Fields
moved = field "previous_team" (str "web") end

abbrev plan_of : Option (List Governed) → List Governed
plan_of o = get_or o []

unfoldable planned : Option (List Governed)
planned =
    build_plan sample_encoder sample_python sample_engine [] sample_subject moved inputs (some "p1")
      0

was_planned :
    build_plan sample_encoder sample_python sample_engine [] sample_subject moved inputs
      (some "p1")
      0
    ≡ some (plan_of planned)
unfolding planned build_plan transfer_revokes contextrail.Rail.Plan.uncovered
    contextrail.Rail.Plan.revokes contextrail.Models.Value.member contextrail.Models.Action.create
    evaluate_all_actions contextrail.Rail.Govern.govern_one contextrail.Policy.Engine.decide
    contextrail.Policy.Matchers.applies_to contextrail.Policy.Matchers.matches
    contextrail.Policy.Conditions.evaluate_all contextrail.Policy.Engine.apply_decision
was_planned = refl

build_plan-by_class_example :
    (actions : List Action) × ((revoked : List Governed) × (transfer_revokes sample_encoder
          sample_subject moved inputs
        ≡ some actions)
      × (evaluate_all_actions sample_python sample_engine sample_subject
            (request_of end (some "p1"))
            0
            actions
          ≡ some revoked)
      × (plan_of planned ≡ by_class ([] ++ revoked)))
build_plan-by_class_example =
    build_plan-by_class sample_encoder sample_python sample_engine [] sample_subject moved inputs
      (some "p1") 0 (plan_of planned) was_planned

count_planned : length (plan_of planned) ≡ 1
unfolding planned build_plan transfer_revokes contextrail.Rail.Plan.uncovered
    contextrail.Rail.Plan.revokes contextrail.Models.Value.member contextrail.Models.Action.create
    evaluate_all_actions contextrail.Rail.Govern.govern_one contextrail.Policy.Engine.decide
    contextrail.Policy.Matchers.applies_to contextrail.Policy.Matchers.matches
    contextrail.Policy.Conditions.evaluate_all contextrail.Policy.Engine.apply_decision
    contextrail.Rail.Plan.sorted contextrail.Rail.Plan.insert
count_planned = refl
