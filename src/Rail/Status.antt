-- ===== src/Rail/Status.antt =====
-- When a run is done and when it waits (engine/contextrail/rail/finalize.py).
use contextrail.Prelude.{
  Bool, true, false, some, List, [], ◌∷◌, ◌≡◌, refl, inl, inr, ◌↔◌, ◌≢◌, any, All, At, here, there,
  Bool-cases, arith,
}
use contextrail.Models.Action.{awaiting, verified, Action}
use contextrail.Models.Run.{running, awaiting_approval, partial, done, check_run_transition}
use contextrail.Models.Case.{CaseFile}
use contextrail.Rail.Finalize.{is_awaiting, is_unsettled, final_status}

pub any-At :
    {A : Type 0} (p : A → Bool) (xs : List A) → any p xs ≡ true → (x : A) × At x xs × (p x ≡ true)
any-At p [] h = cc
any-At p (x ∷ xs) h = elim (Bool-cases (p x)) [
  | inl e ↦ (x, here, e)
  | inr e ↦ let (y, m, q) = any-At p xs (ground arith) in (y, there m, q)
]

any_none : {A : Type 0} (p : A → Bool) (xs : List A) → any p xs ≡ false → All (λ x. p x ≡ false) xs
any_none p [] h = tt
any_none p (x ∷ xs) h = elim (Bool-cases (p x)) [
  | inl e ↦ absurd (ground arith)
  | inr e ↦ (e, any_none p xs (ground arith))
]

-- the states of the actions, and the status
abbrev pub IsDone : CaseFile → Type 0
IsDone c = (c.open_blockers ≡ []) × All (λ (a : Action). a.state ≡ verified) c.actions

abbrev pub IsWaiting : CaseFile → Type 0
IsWaiting c = (a : Action) × At a c.actions × (a.state ≡ awaiting)

all_verified :
    (actions : List Action)
    → All (λ (a : Action). is_awaiting a.state ≡ false) actions
    → All (λ (a : Action). is_unsettled a.state ≡ false) actions
    → All (λ (a : Action). a.state ≡ verified) actions
all_verified [] h g = tt
all_verified (a ∷ actions) h g = (ground arith, all_verified actions h.1 g.1)

At-any : {A : Type 0} (p : A → Bool) (xs : List A) {x : A} → At x xs → p x ≡ true → any p xs ≡ true
At-any p [] m h = elim m [ ]
At-any p (x ∷ xs) here h = ground arith
At-any p (x ∷ xs) (there m) h = let rest = At-any p xs m h in ground arith

abbrev waiting : CaseFile → Bool
waiting c = any (λ (a : Action). is_awaiting a.state) c.actions

abbrev unsettled : CaseFile → Bool
unsettled c = any (λ (a : Action). is_unsettled a.state) c.actions

waiting→IsWaiting : (c : CaseFile) → waiting c ≡ true → IsWaiting c
waiting→IsWaiting c h =
    let (a, m, e) = any-At (λ (a : Action). is_awaiting a.state) c.actions h in (a, m, ground arith)

IsWaiting→waiting : (c : CaseFile) → IsWaiting c → waiting c ≡ true
IsWaiting→waiting c (a, m, e) = At-any (λ (a : Action). is_awaiting a.state) c.actions m (rw e refl)

none_unsettled :
    (actions : List Action)
    → All (λ (a : Action). a.state ≡ verified) actions
    → any (λ (a : Action). is_unsettled a.state) actions ≡ false
none_unsettled [] h = refl
none_unsettled (a ∷ actions) h =
    let rest = none_unsettled actions h.1 in let e = h.0 in ground arith

none_waiting :
    (actions : List Action)
    → All (λ (a : Action). a.state ≡ verified) actions
    → any (λ (a : Action). is_awaiting a.state) actions ≡ false
none_waiting [] h = refl
none_waiting (a ∷ actions) h = let rest = none_waiting actions h.1 in let e = h.0 in ground arith

status_waits : (c : CaseFile) → final_status c ≡ awaiting_approval → waiting c ≡ true
unfolding final_status
status_waits c h = ground arith

waits_status : (c : CaseFile) → waiting c ≡ true → final_status c ≡ awaiting_approval
unfolding final_status
waits_status c h = rw h refl

status_done :
    (c : CaseFile)
    → final_status c ≡ done
    → (waiting c ≡ false) × (c.open_blockers ≡ []) × (unsettled c ≡ false)
unfolding final_status
status_done c h = ground arith

done_status :
    (c : CaseFile)
    → waiting c ≡ false
    → c.open_blockers ≡ []
    → unsettled c ≡ false
    → final_status c ≡ done
unfolding final_status
done_status c w b u = rw (w, b, u) refl

legal : (c : CaseFile) → check_run_transition running (final_status c) ≡ some (final_status c)
unfolding final_status check_run_transition
legal c = ground arith

other_status :
    (c : CaseFile)
    → final_status c ≢ awaiting_approval
    → final_status c ≢ done
    → final_status c ≡ partial
unfolding final_status
other_status c w d = ground arith

pub done→IsDone : (c : CaseFile) → final_status c ≡ done → IsDone c
done→IsDone c h =
    let (w, b, u) = status_done c h in
    (
      b,
      all_verified c.actions (any_none (λ (a : Action). is_awaiting a.state) c.actions w)
          (any_none (λ (a : Action). is_unsettled a.state) c.actions u),
    )

-- A run waits for approval exactly when one of its actions is awaiting; it is done exactly when every
-- action is verified and no blocker is open; it is partial otherwise; and a running run may take
-- whichever status this is.
pub final_status-exact :
    (c : CaseFile)
    → (final_status c ≡ awaiting_approval ↔ IsWaiting c)
      × (final_status c ≡ done ↔ IsDone c)
      × (¬ IsWaiting c → ¬ IsDone c → final_status c ≡ partial)
      × (check_run_transition running (final_status c) ≡ some (final_status c))
final_status-exact c = (
  (λ h. waiting→IsWaiting c (status_waits c h), λ w. waits_status c (IsWaiting→waiting c w)),
  (
    done→IsDone c,
    λ d. done_status c (none_waiting c.actions d.1) d.0 (none_unsettled c.actions d.1),
  ),
  λ w d.
      other_status c (λ h. w (waiting→IsWaiting c (status_waits c h))) (λ h. d (done→IsDone c h)),
  legal c,
)
