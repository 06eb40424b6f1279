-- ===== src/Canonical.antt =====
-- engine/contextrail/canonical.py: canonical JSON and the digests built on it.
pub mod Digests
use contextrail.Prelude.{
  ℕ, String, Option, none, some, ◌≡◌, ◌≢◌, refl, ◌⊎◌, inl, inr, ◌>>=◌, >>=-eq-some, some-eq-some,
}
use contextrail.Models.Value.{
  Value, null, missing, bool, int, str, date, datetime, list, dict, Items, nil, cons, Fields, end,
  field, Value-discrete,
}

-- `strftime` is that of a UTC datetime in the format of the code, `isoformat` that of a date,
-- `dumps` is json.dumps with sorted keys and no whitespace, `sha256` the hex digest of UTF-8 text.
pub record Encoder : Type 0 where
  pub strftime : ℕ → String
  pub isoformat : ℕ → String
  pub dumps : Value → String
  pub sha256 : String → String

abbrev pub params_body : String → Fields → Value
params_body kind target = dict (field "kind" (str kind) (field "target" (dict target) end))

abbrev pub key_body : String → String → String → Value
key_body run_id action_id hash = dict (
    field "run_id" (str run_id)
      (field "action_id" (str action_id) (field "params_hash" (str hash) end)))

module _ (enc : Encoder) where
  -- `_normalise`; `none` is NotCanonicalizable.
  unfoldable mutual
    pub normalise : Value → Option Value
    normalise (datetime n) = some (str (enc.strftime n))
    normalise (date n) = some (str (enc.isoformat n))
    normalise (list xs) = normalise_items xs >>= λ ys. some (list ys)
    normalise (dict d) = normalise_fields d >>= λ e. some (dict e)
    normalise missing = none
    normalise null = some null
    normalise (bool b) = some (bool b)
    normalise (int n) = some (int n)
    normalise (str s) = some (str s)

    pub normalise_items : Items → Option Items
    normalise_items nil = some nil
    normalise_items (cons x xs) =
        let rest = normalise_items xs in normalise x >>= λ y. rest >>= λ ys. some (cons y ys)

    pub normalise_fields : Fields → Option Fields
    normalise_fields end = some end
    normalise_fields (field k v d) =
        let rest = normalise_fields d in normalise v >>= λ w. rest >>= λ e. some (field k w e)

  unfoldable pub canonical_json : Value → Option String
  unfolding normalise
  canonical_json value = do v ← normalise value; some (enc.dumps v)

  unfoldable pub sha256_hex : Value → Option String
  unfolding canonical_json
  sha256_hex value = do body ← canonical_json value; some (enc.sha256 body)

  unfoldable pub params_hash : String → Fields → Option String
  unfolding sha256_hex
  params_hash kind target = sha256_hex (params_body kind target)

  unfoldable pub idempotency_key : String → String → String → Option String
  unfolding sha256_hex
  idempotency_key run_id action_id hash = sha256_hex (key_body run_id action_id hash)

  unfoldable pub door_send_key : String → String → String → Option String
  unfolding sha256_hex
  door_send_key run_id action_id channel = sha256_hex (
      dict (
        field "run_id" (str run_id)
          (field "action_id" (str action_id) (field "channel" (str channel) end))))
