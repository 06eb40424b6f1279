-- ===== src/Connectors/Fixture.antt =====
-- The idempotent, fault-injected write of the FIXTURE connectors (`_apply` of
-- engine/contextrail/connectors/fixture.py) over the document of connectors/state.py.
use contextrail.Prelude.{
  true, false, String, Option, none, some, List, [], ◌∷◌, str_eq, if◌then◌else◌,
}
use contextrail.Models.Value.{Fields}
use contextrail.Connectors.Base.{
  permanent, transient, unknown_outcome, Answer, ok, raised, WriteResult,
}

-- the fault switches; any other text in `_faults` has no effect but to be popped
pub data Switch : Type 0 where
  ack_without_apply timeout_after_apply timeout_before_apply transient_once other : Switch

-- The document: what the connector keeps, the ledger by idempotency key, and the faults by target.
pub record Doc (D : Type 0) : Type 0 where
  pub content : D
  pub ledger : List (String × Fields)
  pub faults : List (String × Switch)

module _ {A : Type 0} where
  -- d.get(key)
  abbrev pub find : String → List (String × A) → Option A
  find key [] = none
  find key ((k, v) ∷ d) = let rest = find key d in if str_eq k key then some v else rest

  -- d.pop(key, None), without its value
  abbrev pub remove : String → List (String × A) → List (String × A)
  remove key [] = []
  remove key ((k, v) ∷ d) = let rest = remove key d in if str_eq k key then rest else (k, v) ∷ rest

pub data Outcome : Type 0 where
  replay transient_error timeout done : Outcome

abbrev is_timeout_after : Option Switch → Outcome
is_timeout_after (some timeout_after_apply) = timeout
is_timeout_after _ = done

abbrev answer : Outcome → Fields → Answer WriteResult
answer replay ref = ok (record { replayed = true; ref = ref })
answer transient_error ref = raised transient
answer timeout ref = raised unknown_outcome
answer done ref = ok (record { replayed = false; ref = ref })

module _ {D : Type 0} where
  -- the ledger entry is written after the change
  abbrev record_key : String → Fields → Option Switch → Doc D → Outcome × Fields × Doc D
  record_key key ref fault doc =
      (is_timeout_after fault, ref, record doc { ledger = (key, ref) ∷ doc.ledger })

  -- the change, unless the fault is an acknowledgement without it; `none` is an exception of
  -- `apply_fn`, and nothing is persisted then
  abbrev changed :
      (D → Option D) → String → Fields → Option Switch → Doc D → Option (Outcome × Fields × Doc D)
  changed apply_fn key ref (some ack_without_apply) doc =
      some (record_key key ref (some ack_without_apply) doc)
  changed apply_fn key ref fault doc = elim (apply_fn doc.content) [
    | none ↦ none
    | some c ↦ some (record_key key ref fault (record doc { content = c }))
  ]

  -- by the fault that was popped
  abbrev faulty :
      (D → Option D) → String → Fields → Option Switch → Doc D → Option (Outcome × Fields × Doc D)
  faulty apply_fn key ref (some transient_once) doc = some (transient_error, ref, doc)
  faulty apply_fn key ref (some timeout_before_apply) doc = some (timeout, ref, doc)
  faulty apply_fn key ref fault doc = changed apply_fn key ref fault doc

  -- `fn` of `_apply`
  abbrev mutate :
      (D → Option D)
      → String
      → String
      → Fields
      → Option Fields
      → Doc D
      → Option (Outcome × Fields × Doc D)
  mutate apply_fn fault_key key ref (some known) doc = some (replay, known, doc)
  mutate apply_fn fault_key key ref none doc =
      faulty apply_fn key ref (find fault_key doc.faults)
        (record doc { faults = remove fault_key doc.faults })

  abbrev settle : Doc D → Option (Outcome × Fields × Doc D) → Answer WriteResult × Doc D
  settle doc none = (raised permanent, doc)
  settle doc (some (outcome, ref, after)) = (answer outcome ref, after)

  -- `_apply`, under the lock of the document
  unfoldable pub apply :
      (D → Option D) → String → String → Fields → Doc D → Answer WriteResult × Doc D
  apply apply_fn fault_key key ref doc =
      settle doc (mutate apply_fn fault_key key ref (find key doc.ledger) doc)
