-- ===== src/Tests/Capsules.antt =====
-- A case file that is sealed, stored, loaded and handed over.
use contextrail.Prelude.{
  String, Option, none, some, get_or, List, [], ◌∷◌, ◌≡◌, ◌≢◌, refl, sym, ◌∙◌, some-eq-some, true,
  false,
}
use contextrail.Models.Value.{Value, str, dict, Fields, end, field}
use contextrail.Models.Case.{CaseFile}
use contextrail.Models.Run.{running, plan}
use contextrail.Models.Dump.{JsonMode, dump_case, dump_content, jsonable}
use contextrail.Models.Equality.{has_own_keys}
use contextrail.Canonical.{canonical_json}
use contextrail.Canonical.Digests.{Distinguishes}
use contextrail.Capsule.{ok, seal, verify}
use contextrail.Rail.Store.{StoredRun, get_run, save_case, load_case}
use contextrail.Rail.Stored.{load-save, load_case-binds}
use contextrail.Rail.Handoff.{
  it, security, TeamView, cut, build_team_view, same_view, receive_view, hand_over, leaks_fields,
}
use contextrail.Rail.HandedOver.{IsCut, hand_over-delivers, receive_view-IsCut}
use contextrail.Tests.Samples.{sample_encoder, sample_subject, sample_action}

abbrev pub sample_json : JsonMode
sample_json = record { date_text = λ n. "1970-01-01"; datetime_text = λ n. "1970-01-01T00:00:00Z" }

abbrev pub sample_case : CaseFile
sample_case = record {
  run_id = "r1";
  request_text = "Give Ada the wiki";
  intent = "onboarding";
  subject = sample_subject;
  peer = none;
  evidence = [];
  constraints = [];
  actions = sample_action ∷ [];
  decisions = [];
  open_blockers = [];
  digest = none;
}

unfoldable sealed_case : CaseFile
unfolding seal
sealed_case = get_or (seal sample_encoder sample_case) sample_case

sealed_sample : seal sample_encoder sample_case ≡ some sealed_case
unfolding sealed_case contextrail.Capsule.compute_digest contextrail.Canonical.sha256_hex
    dump_content contextrail.Models.Subject.dump
sealed_sample = refl

abbrev stored_run : String → StoredRun
stored_run id = record {
  id = id;
  stage = none;
  status = running;
  intent = none;
  subject_id = none;
  capsule = none;
  capsule_digest = none;
}

abbrev rows : List StoredRun
rows = stored_run "r0" ∷ stored_run "r1" ∷ []

unfoldable saved : Option (CaseFile × List StoredRun)
unfolding save_case
saved = save_case sample_encoder sample_json sample_case (some plan) none rows

abbrev rows_of : Option (CaseFile × List StoredRun) → List StoredRun
rows_of none = []
rows_of (some x) = x.1

was_saved :
    save_case sample_encoder sample_json sample_case (some plan) none rows
    ≡ some (sealed_case, rows_of saved)
unfolding saved sealed_case contextrail.Capsule.compute_digest contextrail.Canonical.sha256_hex
    dump_content contextrail.Models.Subject.dump contextrail.Rail.Store.set_stage
was_saved = refl

load-save_example :
    (load_case sample_encoder (λ v. some sealed_case) "r1" (rows_of saved) ≡ ok sealed_case)
    × ((other : String) → other ≢ "r1" → get_run other (rows_of saved) ≡ get_run other rows)
load-save_example =
    load-save sample_encoder sample_json (λ v. some sealed_case) sample_case sealed_case (some plan)
      none rows (rows_of saved) refl was_saved

abbrev payload : Value
payload = str "altered"

unfoldable tampered : StoredRun
unfolding sealed_case
tampered = record (stored_run "r1") { capsule = some payload; capsule_digest = sealed_case.digest }

found_row : get_run "r1" (tampered ∷ []) ≡ some tampered
unfolding tampered get_run
found_row = refl

loaded : load_case sample_encoder (λ v. some sealed_case) "r1" (tampered ∷ []) ≡ ok sealed_case
unfolding load_case get_run tampered contextrail.Capsule.receive verify
    contextrail.Capsule.compute_digest contextrail.Canonical.sha256_hex dump_content
    contextrail.Models.Subject.dump
loaded = refl

itself_apart :
    Distinguishes sample_encoder (dict (dump_content sealed_case)) (dict (dump_content sealed_case))
itself_apart s t p q e = some-eq-some (sym p ∙ q)

load_case-binds_example :
    (text : String) × (canonical_json sample_encoder (dict (dump_content sealed_case)) ≡ some text)
    × (canonical_json sample_encoder (dict (dump_content sealed_case)) ≡ some text)
unfolding sealed_case tampered
load_case-binds_example =
    load_case-binds sample_encoder (λ v. some sealed_case) sample_case sealed_case sealed_case "r1"
      (tampered ∷ []) tampered itself_apart sealed_sample found_row refl loaded

is_sealed : verify sample_encoder sealed_case ≡ ok sealed_case
unfolding verify sealed_case contextrail.Capsule.compute_digest contextrail.Canonical.sha256_hex
    dump_content contextrail.Models.Subject.dump
is_sealed = refl

abbrev sample_view : TeamView
sample_view = record { team = it; run_id = ""; capsule_digest = ""; body = end; view_digest = "" }

unfoldable it_view : TeamView
unfolding sealed_case
it_view = get_or (cut sample_encoder sample_json it sealed_case) sample_view

unfoldable security_view : TeamView
unfolding sealed_case
security_view = get_or (cut sample_encoder sample_json security sealed_case) sample_view

it_cut : cut sample_encoder sample_json it sealed_case ≡ some it_view
unfolding it_view contextrail.Capsule.compute_digest contextrail.Canonical.sha256_hex dump_content
    contextrail.Models.Subject.dump contextrail.Rail.Handoff.project
    contextrail.Rail.Handoff.view_digest contextrail.Models.Dump.jsonable_fields dump_case
    contextrail.Rail.Handoff.pick
it_cut = refl

security_cut : cut sample_encoder sample_json security sealed_case ≡ some security_view
unfolding security_view contextrail.Capsule.compute_digest contextrail.Canonical.sha256_hex
    dump_content contextrail.Models.Subject.dump contextrail.Rail.Handoff.project leaks_fields
    contextrail.Rail.Handoff.salary_like contextrail.Models.Dump.jsonable_fields dump_case
    contextrail.Rail.Handoff.pick contextrail.Rail.Handoff.view_digest
security_cut = refl

it_own : has_own_keys (dict it_view.body) ≡ true
unfolding it_view contextrail.Capsule.compute_digest contextrail.Canonical.sha256_hex dump_content
    contextrail.Models.Subject.dump contextrail.Rail.Handoff.project
    contextrail.Rail.Handoff.view_digest contextrail.Models.Dump.jsonable_fields dump_case
    contextrail.Rail.Handoff.pick
it_own = refl

security_own : has_own_keys (dict security_view.body) ≡ true
unfolding security_view contextrail.Capsule.compute_digest contextrail.Canonical.sha256_hex
    dump_content contextrail.Models.Subject.dump contextrail.Rail.Handoff.project leaks_fields
    contextrail.Rail.Handoff.salary_like contextrail.Models.Dump.jsonable_fields dump_case
    contextrail.Rail.Handoff.pick contextrail.Rail.Handoff.view_digest
security_own = refl

hand_over-delivers_example :
    hand_over sample_encoder sample_json (λ v. some v) sealed_case
    ≡ ok ((it, it_view) ∷ (security, security_view) ∷ [])
hand_over-delivers_example =
    hand_over-delivers sample_encoder sample_json (λ v. some v) sealed_case it_view security_view
      is_sealed it_cut security_cut (it_own, security_own) (refl, refl)

received : receive_view sample_encoder sample_json it_view sealed_case ≡ ok it_view
unfolding receive_view contextrail.Rail.Handoff.view_digest contextrail.Canonical.sha256_hex it_view
    contextrail.Capsule.compute_digest dump_content contextrail.Models.Subject.dump
    contextrail.Rail.Handoff.project contextrail.Models.Dump.jsonable_fields dump_case
    contextrail.Rail.Handoff.pick build_team_view verify contextrail.Models.Value.equal
received = refl

receive_view-IsCut_example :
    (it_view ≡ it_view)
    × ((expected : TeamView) × (build_team_view sample_encoder sample_json sealed_case it_view.team
          ≡ ok expected)
        × IsCut sample_encoder sample_json it_view.team sealed_case expected
        × (same_view it_view expected ≡ true)
        × (it_view.team ≡ security → leaks_fields expected.body ≡ false))
receive_view-IsCut_example =
    receive_view-IsCut sample_encoder sample_json it_view it_view sealed_case received
