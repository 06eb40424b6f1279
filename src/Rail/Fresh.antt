-- ===== src/Rail/Fresh.antt =====
-- Fences and freshness (engine/contextrail/rail/compile.py).
use Prim.Native.Char.{code}
use contextrail.Prelude.{
  ℕ, ◌+◌, ◌<◌, ◌≤◌, ◌⊎◌, Bool, true, false, ◌||◌, String, some, [], ◌∷◌, any, ◌≡◌, refl, ◌↔◌, inl,
  inr, Bool-cases, ◌==◌, codes, ◌&◌,
}
use contextrail.Models.Evidence.{EvidenceKind, record_kind, policy, precedent, Evidence}
use contextrail.Models.Dump.{trust_name}
use contextrail.Rail.Compile.{freshness_days, escape, wrap_untrusted}

abbrev pub is_bracket : ℕ → Bool
is_bracket c = c == b'<' || c == b'>'

or_false : (a b r : Bool) → a ≡ false → b ≡ false → r ≡ false → ((a || b) || r) ≡ false
or_false a b r p q s = rw (p, q) s

escape-no_bracket : (s : String) → any is_bracket (codes (escape s)) ≡ false
unfolding escape
escape-no_bracket String.[] = refl
escape-no_bracket (String.◌∷◌ c s) = elim (Bool-cases (code c == b'<')) [
  | inl e ↦ rw e (escape-no_bracket s)
  | inr e ↦ elim (Bool-cases (code c == b'>')) [
    | inl f ↦ rw (e, f) (escape-no_bracket s)
    | inr f ↦ rw (e, f) (or_false (code c == b'<') (code c == b'>') _ e f (escape-no_bracket s))
  ]
]

-- Untrusted text cannot close its fence: what enters a prompt is an opening tag, a body and a closing
-- tag, and the body has neither of the brackets that a tag needs, whatever the excerpt says.
pub wrap_untrusted-fences :
    (e : Evidence)
    → (body : String) × (wrap_untrusted e ≡ (
        "<untrusted source=\""
        & e.source
        & "\" uri=\""
        & e.uri
        & "\" trust=\""
        & trust_name e.trust
        & "\">\n"
        & body
        & "\n</untrusted>"))
      × (any is_bracket (codes body) ≡ false)
unfolding wrap_untrusted
wrap_untrusted-fences e = (escape e.excerpt, refl, escape-no_bracket e.excerpt)

-- the same evidence with the flag down
abbrev pub unflagged : Evidence → Evidence
unflagged e = record e { stale = false }

-- Evidence that has a date is flagged exactly if more days went by since than its kind allows.
abbrev pub IsJudged : ℕ → Evidence → Type 0
IsJudged today e =
    (d : ℕ) → e.last_verified ≡ some d → (e.stale ≡ true ↔ d + freshness_days e.kind < today)

abbrev pub IsDeciding : EvidenceKind → Type 0
IsDeciding k = (k ≡ record_kind) ⊎ (k ≡ policy) ⊎ (k ≡ precedent)

-- Evidence that decides is not older than its kind allows.
abbrev pub IsUsable : ℕ → Evidence → Type 0
IsUsable today e =
    (d : ℕ) → e.last_verified ≡ some d → IsDeciding e.kind → today ≤ d + freshness_days e.kind
