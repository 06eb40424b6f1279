-- ===== src/Llm/Replay.antt =====
-- engine/contextrail/llm/replay.py: recorded answers, one file for each key. A file that is absent
-- or unreadable is no document.
use contextrail.Prelude.{
  ℕ, Bool, false, String, Option, none, some, ◌>>=◌, List, ◌∷◌, ◌&&◌, str_eq, if◌then◌else◌, find?,
}
use contextrail.Models.Value.{Value, null, str, list, dict, Items, end, field}
use contextrail.Canonical.{Encoder, sha256_hex}

pub record Recording : Type 0 where
  pub content : Items
  pub stop_reason : Option String
  pub input_tokens : ℕ
  pub output_tokens : ℕ

pub record Document : Type 0 where
  pub key : String
  pub request : Value
  pub response : Option Recording

-- The files by the key in their name; a file that is written again stands first.
abbrev pub Store : Type 0
Store = List (String × Document)

abbrev text_or_null : Option String → Value
text_or_null none = null
text_or_null (some s) = str s

abbrev pub request_for : String → String → Option String → Items → Items → Value
request_for model system policy_text messages tools = dict (
    field "model" (str model) (
      field "system" (str system) (
        field "policy_text" (text_or_null policy_text)
          (field "messages" (list messages) (field "tools" (list tools) end)))))

-- `none` is an error of the digest; writing may raise OSError, and then nothing is stored.
unfoldable pub save : Encoder → Bool → Value → Recording → Store → Option Store
save enc writable request response store = do
  key ← sha256_hex enc request
  some (
      if writable
      then (key, (record { key = key; request = request; response = some response })) ∷ store
      else store)

abbrev is_digest : String → Option String → Bool
is_digest key none = false
is_digest key (some h) = str_eq h key

abbrev checked : Encoder → String → Option (String × Document) → Option Recording
checked enc key none = none
checked enc key (some (name, doc)) =
    if str_eq doc.key key && is_digest key (sha256_hex enc doc.request) then doc.response else none

unfoldable pub load : Encoder → String → Store → Option Recording
load enc key store = checked enc key (find? (λ (f : String × Document). str_eq f.0 key) store)
