-- ===== src/Connectors/SentOnce.antt =====
-- When a door message is sent again, and when not (engine/contextrail/connectors/once.py).
use contextrail.Prelude.{true, String, some, List, ◌≡◌, find?}
use contextrail.Canonical.{Encoder}
use contextrail.Connectors.Once.{Message, is_message, Sent, Call, returned, raised}

-- A call that sends nothing: it answers with the reference that was recorded, or raises, and leaves the
-- world and the table as they are.
abbrev pub Repeats : {W : Type 0} → Sent W → W → Call W → Type 0
Repeats s v (returned t) = t ≡ record { ref = s.ref; replayed = true; world = v; rows = s.rows }
Repeats s v (raised u left) = (u ≡ v) × (left ≡ s.rows)

module _ {W : Type 0} (enc : Encoder) (run_id action_id channel : String) where
  -- the message is recorded with the reference that the call gave
  abbrev IsRecorded : Sent W → Type 0
  IsRecorded s =
      (m : Message) × (find? (is_message run_id action_id channel) s.rows ≡ some m)
      × (m.ref ≡ s.ref)

  -- what a call that found or sent the message must be
  abbrev Ends : List Message → Call W → Type 0
  Ends rows (returned s) = IsRecorded s
  Ends rows (raised w left) = left ≡ rows
