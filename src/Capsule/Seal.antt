-- ===== src/Capsule/Seal.antt =====
-- What the seal of a case file guarantees (engine/contextrail/capsule.py).
use contextrail.Prelude.{
  String, Option, none, some, true, ◌≡◌, refl, sym, ap, ◌∙◌, >>=-eq-some, some-eq-some, str_eq,
  eq_iff, Bool-cases, inl, inr,
}
use contextrail.Models.Value.{dict}
use contextrail.Models.Case.{CaseFile}
use contextrail.Models.Dump.{dump_content}
use contextrail.Canonical.{Encoder, canonical_json}
use contextrail.Canonical.Digests.{Distinguishes, sha256_hex-binds}
use contextrail.Capsule.{ok, same_digest, check_digest, compute_digest, seal, verify}

pub str_eq_refl : (s : String) → str_eq s s ≡ true
str_eq_refl s = (eq_iff s s).1 refl

-- What sealing gives: the same case, with the digest of its content.
pub seal_lem :
    (enc : Encoder) (c s : CaseFile)
    → seal enc c ≡ some s
    → (h : String) × (compute_digest enc c ≡ some h) × (s ≡ (record c { digest = some h }))
unfolding seal
seal_lem enc c s e =
    let (h, p, q) = >>=-eq-some (compute_digest enc c) _ e in (h, p, sym (some-eq-some q))

-- The content of a case does not hold its digest.
pub digest_ignored :
    (enc : Encoder) (c : CaseFile) (h : Option String)
    → compute_digest enc (record c { digest = h }) ≡ compute_digest enc c
unfolding compute_digest dump_content
digest_ignored enc c h = refl

pub verify-seal : (enc : Encoder) (c s : CaseFile) → seal enc c ≡ some s → verify enc s ≡ ok s
unfolding verify
verify-seal enc c s e =
    let (h, p, q) = seal_lem enc c s e in
    rw (q, digest_ignored enc c (some h), p, str_eq_refl h) refl

same_digest_lem : (o : Option String) (h : String) → same_digest o h ≡ true → o ≡ some h
same_digest_lem none h e = cc
same_digest_lem (some g) h e = ap some ((eq_iff g h).0 e)

check_digest_ok :
    (c d : CaseFile) (o : Option String)
    → check_digest c o ≡ ok d
    → (d ≡ c) × ((h : String) × (o ≡ some h) × (c.digest ≡ some h))
check_digest_ok c d none e = cc
check_digest_ok c d (some h) e = elim (Bool-cases (same_digest c.digest h)) [
  | inl t ↦ (cc (rw t at e), (h, refl, same_digest_lem c.digest h t))
  | inr f ↦ absurd (cc (rw f at e))
]

pub verify_ok :
    (enc : Encoder) (c d : CaseFile)
    → verify enc c ≡ ok d
    → (d ≡ c) × ((h : String) × (compute_digest enc c ≡ some h) × (c.digest ≡ some h))
unfolding verify
verify_ok enc c d e = check_digest_ok c d (compute_digest enc c) e

-- Two case files that pass with one digest have one canonical text, if sha256 tells their texts apart.
pub verify-binds :
    (enc : Encoder) (c d : CaseFile) (h : String)
    → Distinguishes enc (dict (dump_content c)) (dict (dump_content d))
    → verify enc c ≡ ok c
    → verify enc d ≡ ok d
    → c.digest ≡ some h
    → d.digest ≡ some h
    → (text : String) × (canonical_json enc (dict (dump_content c)) ≡ some text)
      × (canonical_json enc (dict (dump_content d)) ≡ some text)
unfolding compute_digest
verify-binds enc c d h apart vc vd p q =
    let (_, (g, cg, dg)) = verify_ok enc c c vc in
    let (_, (g', cg', dg')) = verify_ok enc d d vd in
    sha256_hex-binds enc _ _ h apart (cg ∙ (sym dg ∙ p)) (cg' ∙ (sym dg' ∙ q))
