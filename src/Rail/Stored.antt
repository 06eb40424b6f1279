-- ===== src/Rail/Stored.antt =====
-- What a stored case file is on load (engine/contextrail/rail/store.py).
use contextrail.Prelude.{
  String, Option, none, some, List, [], ◌∷◌, true, false, ◌≡◌, ◌≢◌, refl, sym, ap, ◌∙◌, inl, inr,
  >>=-eq-some, some-eq-some, str_eq, eq_iff, Bool-cases,
}
use mathlib.Core.Path.{subst}
use contextrail.Models.Value.{Value, dict}
use contextrail.Models.Case.{CaseFile}
use contextrail.Models.Run.{RunStatus, Stage}
use contextrail.Models.Dump.{JsonMode, dump_case, dump_content, jsonable}
use contextrail.Canonical.{Encoder, canonical_json}
use contextrail.Canonical.Digests.{Distinguishes}
use contextrail.Capsule.{
  Checked, ok, digest_mismatch, invalid, verify_parsed, verify, seal, receive,
}
use contextrail.Capsule.Seal.{seal_lem, verify-seal, verify_ok, verify-binds, str_eq_refl}
use contextrail.Rail.Store.{
  StoredRun, RunFields, set_row, set_stage, get_run, sealing, save_case, recorded_digest,
  check_recorded, load_payload, load_case,
}

get_run-hit :
    (id : String) (r : StoredRun) (rs : List StoredRun) → r.id ≡ id → get_run id (r ∷ rs) ≡ some r
unfolding get_run
get_run-hit id r rs e = rw (e, str_eq_refl id) refl

get_run-miss :
    (id : String) (r : StoredRun) (rs : List StoredRun)
    → str_eq r.id id ≡ false
    → get_run id (r ∷ rs) ≡ get_run id rs
unfolding get_run
get_run-miss id r rs e = rw e refl

differs : (s t : String) → s ≢ t → str_eq s t ≡ false
differs s t d = elim (Bool-cases (str_eq s t)) [ inl e ↦ absurd (d ((eq_iff s t).0 e)) | inr e ↦ e ]

-- Two lists of runs agree on a run behind heads that have the same id.
get_run-cons :
    (id : String) (r s : StoredRun) (rs ss : List StoredRun)
    → r.id ≡ s.id
    → (str_eq s.id id ≡ true → r ≡ s)
    → get_run id rs ≡ get_run id ss
    → get_run id (r ∷ rs) ≡ get_run id (s ∷ ss)
get_run-cons id r s rs ss e same rest = elim (Bool-cases (str_eq s.id id)) [
  | inl t ↦
      get_run-hit id r rs (e ∙ (eq_iff s.id id).0 t)
      ∙ (ap some (same t) ∙ sym (get_run-hit id s ss ((eq_iff s.id id).0 t)))
  | inr f ↦ get_run-miss id r rs (rw e f) ∙ (rest ∙ sym (get_run-miss id s ss f))
]

set_row-id :
    (stage : Option Stage) (status : Option RunStatus) (f : Option RunFields) (r : StoredRun)
    → (set_row stage status f r).id ≡ r.id
set_row-id stage status none r = refl
set_row-id stage status (some f) r = refl

-- Only the row of the run changes, by `set_row`.
abbrev pub Updated : String → (StoredRun → StoredRun) → List StoredRun → List StoredRun → Type 0
Updated id g rows rows' =
    ((old : StoredRun) × (get_run id rows ≡ some old) × (get_run id rows' ≡ some (g old)))
    × ((other : String) → other ≢ id → get_run other rows' ≡ get_run other rows)

Updated-here :
    (id : String) (g : StoredRun → StoredRun) (r : StoredRun) (rs : List StoredRun)
    → r.id ≡ id
    → (g r).id ≡ r.id
    → Updated id g (r ∷ rs) (g r ∷ rs)
Updated-here id g r rs e k = (
  (r, get_run-hit id r rs e, get_run-hit id (g r) rs (k ∙ e)),
  λ other d.
      get_run-cons other (g r) r rs rs k (λ t. absurd (d (sym ((eq_iff r.id other).0 t) ∙ e))) refl,
)

Updated-there :
    (id : String) (g : StoredRun → StoredRun) (r : StoredRun) (rs rs' : List StoredRun)
    → str_eq r.id id ≡ false
    → Updated id g rs rs'
    → Updated id g (r ∷ rs) (r ∷ rs')
Updated-there id g r rs rs' e ((old, p, q), others) = (
  (old, get_run-miss id r rs e ∙ p, get_run-miss id r rs' e ∙ q),
  λ other d. get_run-cons other r r rs' rs refl (λ t. refl) (others other d),
)

pub set_stage_lem :
    (id : String) (stage : Option Stage) (status : Option RunStatus) (f : Option RunFields)
    (rows rows' : List StoredRun)
    → set_stage id stage status f rows ≡ some rows'
    → Updated id (set_row stage status f) rows rows'
unfolding set_stage
set_stage_lem id stage status f [] rows' h = cc
set_stage_lem id stage status f (r ∷ rs) rows' h = elim (Bool-cases (str_eq r.id id)) [
  | inl e ↦
      subst (λ l. Updated id (set_row stage status f) (r ∷ rs) l) (some-eq-some (rw e at h))
        (Updated-here id (set_row stage status f) r rs ((eq_iff r.id id).0 e)
          (set_row-id stage status f r))
  | inr e ↦
      let (rs', p, q) = >>=-eq-some (set_stage id stage status f rs) _ (rw e at h) in
      subst (λ l. Updated id (set_row stage status f) (r ∷ rs) l) (some-eq-some q)
        (Updated-there id (set_row stage status f) r rs rs' e
          (set_stage_lem id stage status f rs rs' p))
]

load_sealed :
    (enc : Encoder) (js : JsonMode) (model_validate : Value → Option CaseFile) (s : CaseFile)
    (h : String)
    → model_validate (jsonable js (dict (dump_case s))) ≡ some s
    → verify enc s ≡ ok s
    → s.digest ≡ some h
    → check_recorded s.digest (receive enc model_validate (jsonable js (dict (dump_case s)))) ≡ ok s
unfolding receive
load_sealed enc js model_validate s h m v d = rw (m, v, d, str_eq_refl h) refl

pub save_case_lem :
    (enc : Encoder) (js : JsonMode) (c s : CaseFile) (stage : Option Stage)
    (status : Option RunStatus) (rows rows' : List StoredRun)
    → save_case enc js c stage status rows ≡ some (s, rows')
    → (seal enc c ≡ some s)
      × Updated c.run_id (set_row stage status (some (sealing js s))) rows rows'
unfolding save_case
save_case_lem enc js c s stage status rows rows' e =
    let (z, p, q) = >>=-eq-some (seal enc c) _ e in
    let (l, p', q') = >>=-eq-some (set_stage c.run_id stage status _ rows) _ q in
    let same = some-eq-some q' in
    (
      p ∙ ap (λ x. some x.0) same,
      set_stage_lem c.run_id stage status (some (sealing js s)) rows rows' (
          subst (λ x. set_stage c.run_id stage status (some (sealing js x.0)) rows ≡ some x.1) same
            p'),
    )

-- What was saved is what is loaded: a case file that is sealed and stored on the row of its run is
-- received from there, with the seal intact, and the other runs stay as they were, provided that
-- `model_validate` reads back what `model_dump` wrote of this case.
pub load-save :
    (enc : Encoder) (js : JsonMode) (model_validate : Value → Option CaseFile) (c s : CaseFile)
    (stage : Option Stage) (status : Option RunStatus) (rows rows' : List StoredRun)
    → model_validate (jsonable js (dict (dump_case s))) ≡ some s
    → save_case enc js c stage status rows ≡ some (s, rows')
    → (load_case enc model_validate c.run_id rows' ≡ ok s)
      × ((other : String) → other ≢ c.run_id → get_run other rows' ≡ get_run other rows)
unfolding load_case
load-save enc js model_validate c s stage status rows rows' m e =
    let (sealed, ((old, _, new), others)) = save_case_lem enc js c s stage status rows rows' e in
    let (h, _, d) = seal_lem enc c s sealed in
    (
      rw new (
          load_sealed enc js model_validate s h m (verify-seal enc c s sealed)
            (ap (λ x. x.digest) d)),
      others,
    )

recorded_digest_lem :
    (o : Option String) (h : String) → recorded_digest o (some h) ≡ true → o ≡ some h
recorded_digest_lem none h e = cc
recorded_digest_lem (some g) h e = ap some (sym ((eq_iff h g).0 e))

check_recorded_ok :
    (recorded : Option String) (m : Checked CaseFile) (d : CaseFile) (h : String)
    → recorded ≡ some h
    → check_recorded recorded m ≡ ok d
    → (m ≡ ok d) × (d.digest ≡ some h)
check_recorded_ok recorded (ok c) d h r e = elim (Bool-cases (recorded_digest c.digest recorded)) [
  | inl t ↦
      let same : ok c ≡ ok d = rw t at e in
      let eq : c ≡ d = cc same in
      let td : recorded_digest d.digest (some h) ≡ true =
        subst (λ x. recorded_digest x.digest (some h) ≡ true) eq
          (subst (λ o. recorded_digest c.digest o ≡ true) r t) in
      (same, recorded_digest_lem d.digest h td)
  | inr f ↦ absurd (cc (rw f at e))
]
check_recorded_ok recorded (digest_mismatch x y) d h r e = cc
check_recorded_ok recorded invalid d h r e = cc

verify_parsed_ok :
    (enc : Encoder) (o : Option CaseFile) (d : CaseFile)
    → verify_parsed enc o ≡ ok d
    → verify enc d ≡ ok d
verify_parsed_ok enc none d e = cc
verify_parsed_ok enc (some c) d e = subst (λ x. verify enc x ≡ ok d) (sym (verify_ok enc c d e).0) e

load_payload_ok :
    (enc : Encoder) (model_validate : Value → Option CaseFile) (recorded : Option String)
    (o : Option Value) (d : CaseFile) (h : String)
    → recorded ≡ some h
    → load_payload enc model_validate recorded o ≡ ok d
    → (verify enc d ≡ ok d) × (d.digest ≡ some h)
unfolding receive
load_payload_ok enc model_validate recorded none d h r e = cc
load_payload_ok enc model_validate recorded (some v) d h r e =
    let (p, q) = check_recorded_ok recorded (receive enc model_validate v) d h r e in
    (verify_parsed_ok enc (model_validate v) d p, q)

load_case_ok :
    (enc : Encoder) (model_validate : Value → Option CaseFile) (id : String) (rows : List StoredRun)
    (row : StoredRun) (d : CaseFile) (h : String)
    → get_run id rows ≡ some row
    → row.capsule_digest ≡ some h
    → load_case enc model_validate id rows ≡ ok d
    → (verify enc d ≡ ok d) × (d.digest ≡ some h)
unfolding load_case
load_case_ok enc model_validate id rows row d h g r e =
    load_payload_ok enc model_validate row.capsule_digest row.capsule d h r (rw g at e)

-- A stored case file that was altered is not loaded: whatever payload stands on the row of the run,
-- if the row still has the digest that sealing gave, sha256 tells the two canonical texts apart and
-- the load succeeds, then the case that is loaded has the canonical text that was sealed.
pub load_case-binds :
    (enc : Encoder) (model_validate : Value → Option CaseFile) (c s d : CaseFile) (id : String)
    (rows : List StoredRun) (row : StoredRun)
    → Distinguishes enc (dict (dump_content s)) (dict (dump_content d))
    → seal enc c ≡ some s
    → get_run id rows ≡ some row
    → row.capsule_digest ≡ s.digest
    → load_case enc model_validate id rows ≡ ok d
    → (text : String) × (canonical_json enc (dict (dump_content s)) ≡ some text)
      × (canonical_json enc (dict (dump_content d)) ≡ some text)
load_case-binds enc model_validate c s d id rows row apart sealed g r e =
    let (h, _, q) = seal_lem enc c s sealed in
    let sd = ap (λ x. x.digest) q in
    let (v, dd) = load_case_ok enc model_validate id rows row d h g (r ∙ sd) e in
    verify-binds enc s d h apart (verify-seal enc c s sealed) v sd dd
