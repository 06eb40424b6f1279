-- ===== src/Tests/Audits.antt =====
-- Two rows of the audit chain, and the digests of two parameters.
use Prim.Native.String.{◌++◌}
use contextrail.Prelude.{
  true, false, none, some, [], ◌∷◌, ◌≡◌, refl, ap, sym, ◌∙◌, some-eq-some, String,
}
use contextrail.Models.Value.{Value, end}
use contextrail.Canonical.{Encoder, canonical_json}
use contextrail.Audit.Chain.{
  Row, ChainCheck, Table, genesis, chain_hash, broken_link, verify_chain, append_audit, passed,
  add_last,
}
use contextrail.Audit.Linked.{Report, Linked, none_left, next, verify_chain_exact}
use contextrail.Audit.Append.{IsSound, append_audit-IsSound}
use contextrail.Audit.Agreement.{Agree, last_hash-binds}
use contextrail.Tests.Samples.{sample_encoder}

abbrev forged : Row
forged = record {
  seq = 1;
  run_id = none;
  event = "e";
  payload = end;
  prev_hash = "bad";
  hash = "x";
  at = 5;
}

abbrev verdict : ChainCheck
verdict = record { ok = false; rows = 1; first_broken_seq = some 1; reason = some broken_link }

checked : verify_chain sample_encoder (forged ∷ []) ≡ some verdict
unfolding verify_chain
checked = refl

verify_chain_exact_example : Report sample_encoder genesis 0 (forged ∷ []) verdict
verify_chain_exact_example = verify_chain_exact sample_encoder (forged ∷ []) verdict checked

abbrev empty : Table
empty = record { rows = []; next_seq = 1 }

abbrev first_row : Row
first_row = record {
  seq = 1;
  run_id = none;
  event = "e";
  payload = end;
  prev_hash = "GENESIS";
  hash = "#GENESIS{event:'e',payload:{},at:'1970-01-01T00:00:00Z',}";
  at = 5;
}

abbrev one : Table
one = record { rows = first_row ∷ []; next_seq = 2 }

appended : append_audit sample_encoder true 5 none "e" end empty ≡ some (first_row, one)
unfolding append_audit chain_hash canonical_json
appended = refl

nothing_yet : IsSound sample_encoder empty
nothing_yet = record { linked = none_left genesis; numbered = tt }

append_audit-IsSound_example :
    IsSound sample_encoder one
    × (verify_chain sample_encoder one.rows ≡ some (passed 1))
    × (one.rows ≡ add_last [] first_row)
    × (first_row.event ≡ "e")
    × (first_row.payload ≡ end)
    × (first_row.at ≡ 5)
    × (first_row.seq ≡ 1)
append_audit-IsSound_example =
    append_audit-IsSound sample_encoder true 5 none "e" end empty one first_row nothing_yet appended

hashed :
    chain_hash sample_encoder genesis "e" end 5
    ≡ some "#GENESIS{event:'e',payload:{},at:'1970-01-01T00:00:00Z',}"
unfolding chain_hash canonical_json
hashed = refl

chained : Linked sample_encoder genesis (first_row ∷ [])
unfolding chain_hash canonical_json
chained = next {row = first_row} (record { link = refl; content = refl }) (none_left first_row.hash)

-- digests of one size
abbrev fixed_encoder : Encoder
fixed_encoder = record sample_encoder { sha256 = λ s. "digest" }

abbrev fixed_row : Row
fixed_row = record first_row { hash = "digest" }

fixed_chain : Linked fixed_encoder genesis (fixed_row ∷ [])
unfolding chain_hash canonical_json
fixed_chain = next {row = fixed_row} (record { link = refl; content = refl }) (none_left "digest")

last_hash-binds_example : Agree fixed_encoder (fixed_row ∷ []) (fixed_row ∷ [])
last_hash-binds_example =
    last_hash-binds fixed_encoder (fixed_row ∷ []) (fixed_row ∷ []) (λ s t. refl)
      ((λ s t p q e. ap (λ x. genesis ++ x) (some-eq-some (sym p ∙ q))), tt) fixed_chain fixed_chain
      refl refl

abbrev digest : String
digest = "#{kind:'grant',target:{subject_id:'E1',entitlement:'wiki',},}"
