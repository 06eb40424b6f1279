-- ===== src/Rail/Loaded.antt =====
-- Which case file a run goes on with behind the handoff (engine/contextrail/rail/store.py, runner.py).
use contextrail.Prelude.{
  String, Option, none, some, List, ◌≡◌, refl, sym, ap, ◌∙◌, inl, inr, Bool-cases, >>=-eq-some,
  some-eq-some,
}
use contextrail.Models.Value.{Value}
use contextrail.Models.Case.{CaseFile}
use contextrail.Models.Run.{handoff}
use contextrail.Canonical.{Encoder}
use contextrail.Capsule.{Checked, ok, digest_mismatch, invalid, verify_parsed, receive}
use contextrail.Capsule.Seal.{verify_ok}
use contextrail.Rail.Store.{
  StoredRun, get_run, set_stage, recorded_digest, check_recorded, load_payload, load_case,
}
use contextrail.Rail.Handoff.{Team, TeamView, hand_over}
use contextrail.Rail.World.{World, Deps, audited, halt}
use contextrail.Rail.Runner.{handed, handed_over, handoff_stage}

check_recorded_same :
    (recorded : Option String) (m : Checked CaseFile) (c : CaseFile)
    → check_recorded recorded m ≡ ok c
    → m ≡ ok c
check_recorded_same recorded (ok b) c e = elim (Bool-cases (recorded_digest b.digest recorded)) [
  | inl t ↦ rw t at e
  | inr f ↦ absurd (cc (rw f at e))
]
check_recorded_same recorded (digest_mismatch x y) c e = cc
check_recorded_same recorded invalid c e = cc

verify_parsed_same :
    (enc : Encoder) (o : Option CaseFile) (c : CaseFile) → verify_parsed enc o ≡ ok c → o ≡ some c
verify_parsed_same enc none c e = cc
verify_parsed_same enc (some b) c e = ap some (sym (verify_ok enc b c e).0)

load_payload_parsed :
    (enc : Encoder) (model_validate : Value → Option CaseFile) (recorded : Option String)
    (o : Option Value) (c : CaseFile)
    → load_payload enc model_validate recorded o ≡ ok c
    → (v : Value) × (o ≡ some v) × (model_validate v ≡ some c)
unfolding receive
load_payload_parsed enc model_validate recorded none c e = cc
load_payload_parsed enc model_validate recorded (some v) c e =
    let received = check_recorded_same recorded (receive enc model_validate v) c e in
    (v, refl, verify_parsed_same enc (model_validate v) c received)

-- A case file that is loaded was parsed from what its row stores.
pub load_case_parsed :
    (enc : Encoder) (model_validate : Value → Option CaseFile) (id : String) (rows : List StoredRun)
    (row : StoredRun) (c : CaseFile)
    → get_run id rows ≡ some row
    → load_case enc model_validate id rows ≡ ok c
    → (v : Value) × (row.capsule ≡ some v) × (model_validate v ≡ some c)
unfolding load_case
load_case_parsed enc model_validate id rows row c g e =
    load_payload_parsed enc model_validate row.capsule_digest row.capsule c (rw g at e)

module _ {S : Type 0} (d : Deps S) where
  handed-same :
      (id : String) (b c : CaseFile) (views : Checked (List (Team × TeamView))) (w : World S)
      (h : Option CaseFile × World S)
      → handed d id b views w ≡ some h
      → h.0 ≡ some c
      → b ≡ c
  handed-same id b c (ok views) w h e n =
      let (runs, _, e1) = >>=-eq-some (set_stage id (some handoff) none none w.runs) _ e in
      let (w', _, e2) = >>=-eq-some (audited d id "stage.handoff" _ _) _ e1 in
      some-eq-some (ap (λ x. x.0) (some-eq-some e2) ∙ n)
  handed-same id b c (digest_mismatch expected actual) w h e n =
      let (w', p, e1) = >>=-eq-some (halt d id "handoff.view_mismatch" _ _ w) _ e in
      let gone = ap (λ x. x.0) (some-eq-some e1) in cc
  handed-same id b c invalid w h e n = cc

  handed_over-loaded :
      (id : String) (c : CaseFile) (loaded : Checked CaseFile) (w : World S)
      (h : Option CaseFile × World S)
      → handed_over d id loaded w ≡ some h
      → h.0 ≡ some c
      → loaded ≡ ok c
  handed_over-loaded id c (ok b) w h e n =
      ap ok (handed-same id b c (hand_over d.enc d.js d.parse b) w h e n)
  handed_over-loaded id c (digest_mismatch expected actual) w h e n =
      let (w', p, e1) = >>=-eq-some (halt d id "capsule.digest_mismatch" _ _ w) _ e in
      let gone = ap (λ x. x.0) (some-eq-some e1) in cc
  handed_over-loaded id c invalid w h e n = cc

  pub handoff_stage-loaded :
      (id : String) (c : CaseFile) (w : World S) (h : Option CaseFile × World S)
      → handoff_stage d id w ≡ some h
      → h.0 ≡ some c
      → load_case d.enc d.model_validate id w.runs ≡ ok c
  unfolding handoff_stage
  handoff_stage-loaded id c w h e n =
      handed_over-loaded id c (load_case d.enc d.model_validate id w.runs) w h e n
