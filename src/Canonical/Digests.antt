-- ===== src/Canonical/Digests.antt =====
-- What a digest binds (engine/contextrail/canonical.py).
use contextrail.Prelude.{true, String, some, ◌≡◌, sym, ap, ◌∙◌, >>=-eq-some, some-eq-some}
use contextrail.Models.Value.{Value, equal}
use contextrail.Canonical.{Encoder, normalise, canonical_json, sha256_hex}

module _ (enc : Encoder) where
  -- sha256 has different digests for the canonical texts of two values, if the texts are different
  abbrev pub Distinguishes : Value → Value → Type 0
  Distinguishes v w =
      (s t : String)
      → canonical_json enc v ≡ some s
      → canonical_json enc w ≡ some t
      → enc.sha256 s ≡ enc.sha256 t
      → s ≡ t

  sha256_hex_inv :
      (v : Value) (h : String)
      → sha256_hex enc v ≡ some h
      → (s : String) × (canonical_json enc v ≡ some s) × (enc.sha256 s ≡ h)
  unfolding sha256_hex
  sha256_hex_inv v h e =
      let (s, p, q) = >>=-eq-some (canonical_json enc v) _ e in (s, p, some-eq-some q)

  -- Two values with one digest have one canonical text.
  pub sha256_hex-binds :
      (v w : Value) (h : String)
      → Distinguishes v w
      → sha256_hex enc v ≡ some h
      → sha256_hex enc w ≡ some h
      → (s : String) × (canonical_json enc v ≡ some s) × (canonical_json enc w ≡ some s)
  sha256_hex-binds v w h d p q =
      let (s, vs, hs) = sha256_hex_inv v h p in
      let (t, wt, ht) = sha256_hex_inv w h q in
      (s, vs, wt ∙ ap some (sym (d s t vs wt (hs ∙ sym ht))))

  -- json.loads gives back what json.dumps wrote, as far as `==` tells: two normal forms that are written
  -- as one text are equal.
  abbrev pub ReadsBack : Value → Value → Type 0
  ReadsBack v w =
      (m n : Value)
      → normalise enc v ≡ some m
      → normalise enc w ≡ some n
      → enc.dumps m ≡ enc.dumps n
      → equal m n ≡ true
