-- ===== src/Connectors/Once.antt =====
-- One door message per run, action and channel: `send_once` of engine/contextrail/connectors/once.py over the
-- door_messages table of engine/contextrail/repo.py. The lock makes each call one step.
use contextrail.Prelude.{
  Bool, true, false, ◌&&◌, String, Option, none, some, List, [], ◌∷◌, find?, str_eq, if◌then◌else◌,
}
use contextrail.Models.Value.{Value, str, Fields, end, field}
use contextrail.Canonical.{Encoder, door_send_key}

pub record Message : Type 0 where
  pub run_id : String
  pub action_id : String
  pub channel : String
  pub ref : Fields

abbrev pub is_message : String → String → String → Message → Bool
is_message run_id action_id channel m =
    str_eq m.run_id run_id && str_eq m.action_id action_id && str_eq m.channel channel

-- {**d, key: value}
abbrev pub put_field : String → Value → Fields → Fields
put_field key value end = field key value end
put_field key value (field k v d) =
    let rest = put_field key value d in if str_eq k key then field k value d else field k v rest

-- insert, or on conflict update
abbrev pub upsert_door_message : Message → List Message → List Message
upsert_door_message m [] = m ∷ []
upsert_door_message m (x ∷ xs) =
    let rest = upsert_door_message m xs in
    if is_message m.run_id m.action_id m.channel x then m ∷ xs else x ∷ rest

-- What was sent, whether it was sent before, the world after the call and the table.
pub record Sent (W : Type 0) : Type 0 where
  pub ref : Fields
  pub replayed : Bool
  pub world : W
  pub rows : List Message

abbrev pub message : String → String → String → Fields → Message
message run_id action_id channel ref = record {
  run_id = run_id;
  action_id = action_id;
  channel = channel;
  ref = ref;
}

-- A call that returned, or one that raised, with the world and the table as it left them.
pub data Call (W : Type 0) : Type 0 where
  returned : Sent W → Call W
  raised : W → List Message → Call W

module _ {W : Type 0} (enc : Encoder) (run_id action_id channel : String) where
  -- The end of the transaction: where the commit fails, the table is as it was before it.
  abbrev pub committed : Bool → List Message → Sent W → Call W
  committed true rows s = returned s
  committed false rows s = raised s.world rows

  abbrev pub recorded : Bool → String → List Message → Option Fields × W → Call W
  recorded commits key rows (none, w) = raised w rows
  recorded commits key rows (some ref, w) =
      let full = put_field "idempotency_key" (str key) ref in
      committed commits rows (record {
        ref = full;
        replayed = false;
        world = w;
        rows = upsert_door_message (message run_id action_id channel full) rows;
      })

  abbrev pub unless_sent :
      Bool → (String → W → Option Fields × W) → String → W → List Message → Option Message → Call W
  unless_sent commits send key w rows (some m) =
      committed commits rows (record { ref = m.ref; replayed = true; world = w; rows = rows })
  unless_sent commits send key w rows none = recorded commits key rows (send key w)

  abbrev pub with_key :
      Bool → (String → W → Option Fields × W) → W → List Message → Option String → Call W
  with_key commits send w rows none = raised w rows
  with_key commits send w rows (some key) =
      unless_sent commits send key w rows (find? (is_message run_id action_id channel) rows)

  -- `send` gives no reference where it raises; `commits` says whether the commit behind it succeeds.
  unfoldable pub send_once : Bool → (String → W → Option Fields × W) → W → List Message → Call W
  send_once commits send w rows =
      with_key commits send w rows (door_send_key enc run_id action_id channel)
