-- ===== src/Audit/Chain.antt =====
-- The audit hash chain: how a row's hash is computed, and the check of every link.
use Prim.Native.String.{◌++◌}
use contextrail.Prelude.{
  ℕ, suc, Bool, true, false, not, String, Option, none, some, List, [], ◌∷◌, str_eq, if◌then◌else◌,
  ◌>>=◌,
}
use contextrail.Models.Value.{Value, str, datetime, dict, Fields, end, field}
use contextrail.Canonical.{Encoder, canonical_json}

-- One row of the table `audit`; `payload` is the stored JSON object.
pub record Row : Type 0 where
  pub seq : ℕ
  pub run_id : Option String
  pub event : String
  pub payload : Fields
  pub prev_hash : String
  pub hash : String
  pub at : ℕ

abbrev pub genesis : String
genesis = "GENESIS"

abbrev pub body : String → Fields → ℕ → Value
body event payload at =
    dict (field "event" (str event) (field "payload" (dict payload) (field "at" (datetime at) end)))

pub data Reason : Type 0 where
  broken_link broken_content : Reason

pub record ChainCheck : Type 0 where
  pub ok : Bool
  pub rows : ℕ
  pub first_broken_seq : Option ℕ
  pub reason : Option Reason

abbrev pub passed : ℕ → ChainCheck
passed n = record { ok = true; rows = n; first_broken_seq = none; reason = none }

abbrev pub broken : ℕ → Row → Reason → ChainCheck
broken n row reason = record {
  ok = false;
  rows = suc n;
  first_broken_seq = some row.seq;
  reason = some reason;
}

-- the second test of a row, on the hash that its content has
abbrev pub content_check : Option String → ℕ → Row → Option ChainCheck → Option ChainCheck
content_check none n row rest = none
content_check (some hash) n row rest =
    if not (str_eq hash row.hash) then some (broken n row broken_content) else rest

module _ (enc : Encoder) where
  -- `none` is NotCanonicalizable.
  unfoldable pub chain_hash : String → String → Fields → ℕ → Option String
  chain_hash prev_hash event payload at = do
    text ← canonical_json enc (body event payload at)
    some (enc.sha256 (prev_hash ++ text))

  abbrev pub hash_of : Row → Option String
  hash_of row = chain_hash row.prev_hash row.event row.payload row.at

  -- the loop: `prev` is the hash of the row before and `n` counts the rows seen
  unfoldable pub check_from : String → ℕ → List Row → Option ChainCheck
  check_from prev n [] = some (passed n)
  check_from prev n (row ∷ rows) =
      let rest = check_from row.hash (suc n) rows in
      if not (str_eq row.prev_hash prev)
      then some (broken n row broken_link)
      else content_check (hash_of row) n row rest

  unfoldable pub verify_chain : List Row → Option ChainCheck
  unfolding check_from
  verify_chain rows = check_from genesis 0 rows

-- The table, and the sequence that numbers its rows.
pub record Table : Type 0 where
  pub rows : List Row
  pub next_seq : ℕ

-- the hash of the last row, or what stands for it
abbrev pub last_hash : String → List Row → String
last_hash prev [] = prev
last_hash prev (row ∷ rows) = last_hash row.hash rows

abbrev pub add_last : List Row → Row → List Row
add_last [] row = row ∷ []
add_last (r ∷ rs) row = r ∷ add_last rs row

-- `append_audit` at the time `now`; `none` is a raised error. The row is written with the lock of the
-- chain held, so no other writer stands between the read of the last hash and the insert.
unfoldable pub append_audit :
    Encoder → Bool → ℕ → Option String → String → Fields → Table → Option (Row × Table)
append_audit enc in_transaction now run_id event payload t =
    if not in_transaction then none else (do
      hash ← chain_hash enc (last_hash genesis t.rows) event payload now
      let row : Row = record {
        seq = t.next_seq;
        run_id = run_id;
        event = event;
        payload = payload;
        prev_hash = last_hash genesis t.rows;
        hash = hash;
        at = now;
      }
      some (row, record { rows = add_last t.rows row; next_seq = suc t.next_seq }))
