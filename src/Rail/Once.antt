-- ===== src/Rail/Once.antt =====
-- An action written through the fixture entitlements (engine/contextrail/rail/execute.py over
-- engine/contextrail/connectors/fixture.py).
use mathlib.Core.Path.{subst}
use contextrail.Prelude.{
  ℕ, zero, suc, Bool, true, false, ◌||◌, String, Option, none, some, ◌≡◌, refl, sym, ◌⊎◌, inl, inr,
  Bool-cases, ◌==◌, str_eq,
}
use contextrail.Canonical.{Encoder, idempotency_key}
use contextrail.Models.Value.{Fields, str, lookup}
use contextrail.Models.Action.{ActionState, Action}
use contextrail.Connectors.Base.{
  Answer, ok, raised, permanent, unknown_outcome, transient, WriteResult, Connector,
}
use contextrail.Connectors.Fixture.{Doc, apply}
use contextrail.Connectors.Entitlements.{Holdings, change, write, verify, entitlements}
use contextrail.Connectors.Replay.{IsOnce, apply-IsOnce}
use contextrail.Rail.Attempts.{execute_action_inv}
use contextrail.Rail.Execute.{
  ExecOutcome, connector_name, on_write, reconcile, unless_last, try_from, execute_action,
}

-- A property of the systems that every write and read-back keeps is kept by the attempts.
module _ {S : Type 0} (connector : Connector S) (a : Action) (key : String) (P : S → Type 0)
    (keeps_write : (s : S) → P s → P (connector.write a key s).1)
    (keeps_verify : (s : S) → P s → P (connector.verify a s).1) where
  abbrev pub Keeps : Option (ExecOutcome × S) → Type 0
  Keeps none = Unit
  Keeps (some (o, s)) = P s

  unless_last-Keeps :
      (max_attempts : ℕ) (state : ActionState) (attempt : ℕ) (retry : S → Option (ExecOutcome × S))
      (s : S)
      → ((t : S) → P t → Keeps (retry t))
      → P s
      → Keeps (unless_last connector max_attempts a key state attempt retry s)
  unless_last-Keeps max_attempts state attempt retry s again p =
      elim (Bool-cases (attempt == max_attempts)) [ inl e ↦ rw e p | inr e ↦ rw e (again s p) ]

  reconcile-Keeps :
      (max_attempts attempt : ℕ) (retry : S → Option (ExecOutcome × S))
      (r : Answer (Bool × Fields) × S)
      → ((t : S) → P t → Keeps (retry t))
      → P r.1
      → Keeps (reconcile connector max_attempts a key attempt retry r)
  reconcile-Keeps max_attempts attempt retry (raised e, s) again p = p
  reconcile-Keeps max_attempts attempt retry (ok (true, seen), s) again p = p
  reconcile-Keeps max_attempts attempt retry (ok (false, seen), s) again p =
      unless_last-Keeps max_attempts _ attempt retry s again p

  on_write-Keeps :
      (max_attempts attempt : ℕ) (retry : S → Option (ExecOutcome × S)) (r : Answer WriteResult × S)
      → ((t : S) → P t → Keeps (retry t))
      → P r.1
      → Keeps (on_write connector max_attempts a key attempt retry r)
  on_write-Keeps max_attempts attempt retry (ok result, s) again p = p
  on_write-Keeps max_attempts attempt retry (raised permanent, s) again p = p
  on_write-Keeps max_attempts attempt retry (raised transient, s) again p =
      unless_last-Keeps max_attempts _ attempt retry s again p
  on_write-Keeps max_attempts attempt retry (raised unknown_outcome, s) again p =
      reconcile-Keeps max_attempts attempt retry (connector.verify a s) again (keeps_verify s p)

  pub try_from-Keeps :
      (max_attempts left attempt : ℕ) (s : S)
      → P s
      → Keeps (try_from connector max_attempts a key left attempt s)
  unfolding try_from
  try_from-Keeps max_attempts zero attempt s p = tt
  try_from-Keeps max_attempts (suc left) attempt s p =
      on_write-Keeps max_attempts attempt _ (connector.write a key s)
        (λ t q. try_from-Keeps max_attempts left (suc attempt) t q) (keeps_write s p)

-- whether the action is a grant; it is a revocation otherwise
abbrev pub grants : Action → Bool
grants a = str_eq a.kind "grant"

-- The target of an action on an entitlement names both, and neither is the empty text.
pub record Targets (a : Action) (subject ent : String) : Type 0 where
  pub subject_given : lookup "subject_id" a.target ≡ some (str subject)
  pub ent_given : lookup "entitlement" a.target ≡ some (str ent)
  pub subject_filled : str_eq subject "" ≡ false
  pub ent_filled : str_eq ent "" ≡ false

write_cases :
    (a : Action) (key subject ent : String) (doc : Doc Holdings)
    → Targets a subject ent
    → ((write a key doc).1 ≡ doc)
      ⊎ ((ref : Fields) × (write a key doc ≡ apply (change (grants a) subject ent) ent key ref doc))
unfolding write
write_cases a key subject ent doc t =
    rw (t.subject_given, t.ent_given, t.subject_filled, t.ent_filled)
      (elim (Bool-cases (grants a || str_eq a.kind "revoke")) [
        | inl e ↦ rw e (inr (_, refl))
        | inr e ↦ rw e (inl refl)
      ])

write-IsOnce :
    (a : Action) (key subject ent : String) (before : Holdings) (doc : Doc Holdings)
    → Targets a subject ent
    → IsOnce (change (grants a) subject ent) key before doc
    → IsOnce (change (grants a) subject ent) key before (write a key doc).1
write-IsOnce a key subject ent before doc t p = elim (write_cases a key subject ent doc t) [
  | inl e ↦ rw e p
  | inr (ref, e) ↦ rw e (apply-IsOnce (change (grants a) subject ent) key before ent ref doc p)
]

pub verify-same : (a : Action) (doc : Doc Holdings) → (verify a doc).1 ≡ doc
unfolding verify
verify-same a doc = refl

-- Executing a grant or a revocation through the fixture entitlements, whatever faults are injected,
-- keeps this: its key is not recorded and the holdings are as at first, or it is recorded and they
-- are as at first or changed once. So they are changed at most once, however often it is executed.
pub execute_action-IsOnce :
    (enc : Encoder) (registry : String → Option (Connector (Doc Holdings))) (max_attempts : ℕ)
    (run_id : String) (a : Action) (key subject ent : String) (before : Holdings)
    (doc after : Doc Holdings) (o : ExecOutcome)
    → registry (connector_name a) ≡ some entitlements
    → Targets a subject ent
    → idempotency_key enc run_id a.id a.params_hash ≡ some key
    → IsOnce (change (grants a) subject ent) key before doc
    → execute_action enc registry max_attempts run_id a doc ≡ some (o, after)
    → IsOnce (change (grants a) subject ent) key before after
execute_action-IsOnce enc registry max_attempts run_id a key subject ent before doc after o r t k p
      h =
    let (_, e) =
      execute_action_inv enc registry max_attempts run_id a doc after o entitlements key r k h in
    subst (Keeps entitlements a key P keeps_write keeps_verify) e (
      try_from-Keeps entitlements a key P keeps_write keeps_verify max_attempts max_attempts 1 doc
        p)
  where
    P : Doc Holdings → Type 0
    P d = IsOnce (change (grants a) subject ent) key before d

    keeps_write : (d : Doc Holdings) → P d → P (entitlements.write a key d).1
    keeps_write d q = write-IsOnce a key subject ent before d t q

    keeps_verify : (d : Doc Holdings) → P d → P (entitlements.verify a d).1
    keeps_verify d q = subst P (sym (verify-same a d)) q
