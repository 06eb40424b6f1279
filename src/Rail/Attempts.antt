-- ===== src/Rail/Attempts.antt =====
-- What the bounded attempts of `execute_action` (engine/contextrail/rail/execute.py) end with.
use contextrail.Prelude.{
  ℕ, zero, suc, ◌+◌, ◌≤◌, Bool, true, false, String, Option, none, some, ◌≡◌, refl, ◌⊎◌, inl, inr,
  Bool-cases, Option-cases, arith, ◌==◌, ◌∙◌, sym,
}
use contextrail.Canonical.{Encoder, idempotency_key}
use contextrail.Models.Value.{Fields}
use contextrail.Models.Action.{ActionState, executed, failed, unknown, Action, transition}
use contextrail.Connectors.Base.{
  permanent, transient, unknown_outcome, Answer, ok, raised, WriteResult, Connector,
}
use contextrail.Rail.Execute.{
  ExecOutcome, is_executable, connector_name, unless_last, reconcile, on_write, try_from,
  execute_action,
}

-- whether a read-back found the intended state
abbrev pub reports : Answer (Bool × Fields) → Bool
reports (ok (there, seen)) = there
reports (raised e) = false

module _ {S : Type 0} (connector : Connector S) (max_attempts : ℕ) (a : Action) (key : String) where
  -- The last calls that an outcome rests on, with the state that they left: a write and, where its
  -- outcome was unknown, the read-back after it.
  pub data Basis : ExecOutcome → S → Type 0 where
    acknowledged :
        {o : ExecOutcome} {s t : S} (result : WriteResult)
        → connector.write a key s ≡ (ok result, t)
        → o.state ≡ executed
        → o.replayed ≡ result.replayed
        → Basis o t
    read_back :
        {o : ExecOutcome} {s t u : S} (seen : Fields)
        → connector.write a key s ≡ (raised unknown_outcome, t)
        → connector.verify a t ≡ (ok (true, seen), u)
        → o.state ≡ executed
        → Basis o u
    rejected :
        {o : ExecOutcome} {s t : S}
        → connector.write a key s ≡ (raised permanent, t)
        → o.state ≡ failed
        → Basis o t
    gave_up :
        {o : ExecOutcome} {s t : S}
        → connector.write a key s ≡ (raised transient, t)
        → o.attempts ≡ max_attempts
        → o.state ≡ failed
        → Basis o t
    unread :
        {o : ExecOutcome} {s t u : S} (answer : Answer (Bool × Fields))
        → connector.write a key s ≡ (raised unknown_outcome, t)
        → connector.verify a t ≡ (answer, u)
        → reports answer ≡ false
        → o.state ≡ unknown
        → Basis o u

  -- what is shown of an outcome and of the state after it
  pub record IsEnd (o : ExecOutcome) (s : S) : Type 0 where
    pub same_action : o.action_id ≡ a.id
    pub bounded : o.attempts ≤ max_attempts
    pub started : 1 ≤ o.attempts
    pub basis : Basis o s

  abbrev Ends : Option (ExecOutcome × S) → Type 0
  Ends r = (o : ExecOutcome) × (s : S) × (r ≡ some (o, s)) × IsEnd o s

  unless_last-Ends :
      (state : ActionState) (attempt : ℕ) (retry : S → Option (ExecOutcome × S)) (t : S)
      → (attempt ≡ max_attempts
          → IsEnd
              (record { action_id = a.id; state = state; attempts = attempt; replayed = false })
              t)
      → ((attempt == max_attempts) ≡ false → Ends (retry t))
      → Ends (unless_last connector max_attempts a key state attempt retry t)
  unless_last-Ends state attempt retry t last again = elim (Bool-cases (attempt == max_attempts)) [
    | inl e ↦ rw e (_, t, refl, last (ground arith))
    | inr e ↦ rw e (again e)
  ]

  reconcile-Ends :
      (attempt : ℕ) (retry : S → Option (ExecOutcome × S)) (s t : S)
      (r : Answer (Bool × Fields) × S)
      → connector.write a key s ≡ (raised unknown_outcome, t)
      → connector.verify a t ≡ r
      → attempt ≤ max_attempts
      → 1 ≤ attempt
      → ((attempt == max_attempts) ≡ false → (u : S) → Ends (retry u))
      → Ends (reconcile connector max_attempts a key attempt retry r)
  reconcile-Ends attempt retry s t (raised e, u) w v m p again = (
    _,
    u,
    refl,
    record {
      same_action = refl;
      bounded = m;
      started = p;
      basis = unread (raised e) w v refl refl;
    },
  )
  reconcile-Ends attempt retry s t (ok (true, seen), u) w v m p again = (
    _,
    u,
    refl,
    record { same_action = refl; bounded = m; started = p; basis = read_back seen w v refl },
  )
  reconcile-Ends attempt retry s t (ok (false, seen), u) w v m p again =
      unless_last-Ends unknown attempt retry u
        (λ e. record {
          same_action = refl;
          bounded = m;
          started = p;
          basis = unread (ok (false, seen)) w v refl refl;
        })
        (λ e. again e u)

  on_write-Ends :
      (attempt : ℕ) (retry : S → Option (ExecOutcome × S)) (s : S) (r : Answer WriteResult × S)
      → connector.write a key s ≡ r
      → attempt ≤ max_attempts
      → 1 ≤ attempt
      → ((attempt == max_attempts) ≡ false → (t : S) → Ends (retry t))
      → Ends (on_write connector max_attempts a key attempt retry r)
  on_write-Ends attempt retry s (ok result, t) w m p again = (
    _,
    t,
    refl,
    record {
      same_action = refl;
      bounded = m;
      started = p;
      basis = acknowledged result w refl refl;
    },
  )
  on_write-Ends attempt retry s (raised permanent, t) w m p again =
      (_, t, refl, record { same_action = refl; bounded = m; started = p; basis = rejected w refl })
  on_write-Ends attempt retry s (raised transient, t) w m p again =
      unless_last-Ends failed attempt retry t
        (λ e. record { same_action = refl; bounded = m; started = p; basis = gave_up w e refl })
        (λ e. again e t)
  on_write-Ends attempt retry s (raised unknown_outcome, t) w m p again =
      reconcile-Ends attempt retry s t (connector.verify a t) w refl m p again

  try_from-Ends :
      (left attempt : ℕ) (s : S)
      → left + attempt ≡ max_attempts
      → 1 ≤ attempt
      → Ends (try_from connector max_attempts a key (suc left) attempt s)
  unfolding try_from
  try_from-Ends zero attempt s h p =
      on_write-Ends attempt (λ t. none) s (connector.write a key s) refl (omega arith) p
        (λ e. absurd (ground arith))
  try_from-Ends (suc left) attempt s h p =
      on_write-Ends attempt (try_from connector max_attempts a key (suc left) (suc attempt)) s
        (connector.write a key s) refl (omega arith) p
        (λ e t. try_from-Ends left (suc attempt) t (omega arith) (omega arith))

keyed :
    (enc : Encoder) (run_id action_id hash : String)
    → (key : String) × (idempotency_key enc run_id action_id hash ≡ some key)
unfolding idempotency_key
keyed enc run_id action_id hash = (_, refl)

may_end :
    (a : Action) (to : ActionState)
    → is_executable a ≡ true
    → (to ≡ executed) ⊎ (to ≡ failed) ⊎ (to ≡ unknown)
    → (b : Action) × (transition a to ≡ some b) × (b.state ≡ to)
unfolding is_executable transition
may_end a to h e = elim (Option-cases (transition a to)) [
  | inl q ↦ absurd (ground arith)
  | inr (b, q) ↦ (b, q, ground arith)
]

Basis-state :
    {S : Type 0} {connector : Connector S} {max_attempts : ℕ} {a : Action} {key : String}
    {o : ExecOutcome} {s : S}
    → Basis connector max_attempts a key o s
    → (o.state ≡ executed) ⊎ (o.state ≡ failed) ⊎ (o.state ≡ unknown)
Basis-state (acknowledged result w e f) = inl e
Basis-state (read_back seen w v e) = inl e
Basis-state (rejected w e) = inr (inl e)
Basis-state (gave_up w m e) = inr (inl e)
Basis-state (unread answer w v f e) = inr (inr e)

started_at :
    {S : Type 0} (enc : Encoder) (registry : String → Option (Connector S)) (max_attempts : ℕ)
    (run_id : String) (a : Action) (s : S) (connector : Connector S) (key : String)
    → is_executable a ≡ true
    → registry (connector_name a) ≡ some connector
    → idempotency_key enc run_id a.id a.params_hash ≡ some key
    → execute_action enc registry max_attempts run_id a s
      ≡ try_from connector max_attempts a key max_attempts 1 s
unfolding execute_action
started_at enc registry max_attempts run_id a s connector key h r k = rw (h, r, k) refl

-- What returned an outcome was the attempts for an executable action.
pub execute_action_inv :
    {S : Type 0} (enc : Encoder) (registry : String → Option (Connector S)) (max_attempts : ℕ)
    (run_id : String) (a : Action) (s t : S) (o : ExecOutcome) (connector : Connector S)
    (key : String)
    → registry (connector_name a) ≡ some connector
    → idempotency_key enc run_id a.id a.params_hash ≡ some key
    → execute_action enc registry max_attempts run_id a s ≡ some (o, t)
    → (is_executable a ≡ true)
      × (try_from connector max_attempts a key max_attempts 1 s ≡ some (o, t))
execute_action_inv enc registry max_attempts run_id a s t o connector key r k h =
    elim (Bool-cases (is_executable a)) [
      | inl e ↦ (e, sym (started_at enc registry max_attempts run_id a s connector key e r k) ∙ h)
      | inr e ↦ absurd (raises e h)
    ]
  where
    raises :
        is_executable a ≡ false
        → execute_action enc registry max_attempts run_id a s ≡ some (o, t)
        → ⊥
    raises e h = unfold execute_action in ground arith

-- With at least one attempt allowed and its connector registered, an executable action is written
-- under its idempotency key and ends after between one and `max_attempts` attempts, in a state that
-- the last calls give the reason for and that the transition table allows; it is `executed` only if
-- the last write was acknowledged, or was of unknown outcome and the read-back after it found the
-- intended state. An action that is not executable raises.
pub execute_action-IsEnd :
    {S : Type 0} (enc : Encoder) (registry : String → Option (Connector S)) (max_attempts : ℕ)
    (run_id : String) (a : Action) (s : S) (connector : Connector S)
    → 1 ≤ max_attempts
    → registry (connector_name a) ≡ some connector
    → (is_executable a ≡ true
        → (key : String) × (o : ExecOutcome) × (t : S) × (b : Action) × (idempotency_key enc run_id
              a.id a.params_hash
            ≡ some key)
          × (execute_action enc registry max_attempts run_id a s ≡ some (o, t))
          × IsEnd connector max_attempts a key o t
          × (transition a o.state ≡ some b)
          × (b.state ≡ o.state))
      × (is_executable a ≡ false → execute_action enc registry max_attempts run_id a s ≡ none)
execute_action-IsEnd enc registry zero run_id a s connector p r = absurd (omega arith)
execute_action-IsEnd enc registry (suc n) run_id a s connector p r = (
  λ h.
      let (key, k) = keyed enc run_id a.id a.params_hash in
      let (o, t, q, end) =
        try_from-Ends connector (suc n) a key n 1 s (omega arith) (omega arith) in
      let (b, m, e) = may_end a o.state h (Basis-state end.basis) in
      (
        key,
        o,
        t,
        b,
        k,
        started_at enc registry (suc n) run_id a s connector key h r k ∙ q,
        end,
        m,
        e,
      ),
  λ h. unfold execute_action in rw h refl,
)
