-- ===== src/Rail/Resolved.antt =====
-- That nobody is guessed (engine/contextrail/rail/discover.py).
use contextrail.Prelude.{
  true, false, ◌||◌, String, Option, none, some, List, [], ◌∷◌, ◌++◌, ◌≡◌, refl, sym, ap, ◌∙◌, inl,
  inr, Bool-cases, some-eq-some, >>=-eq-some,
}
use mathlib.Core.Path.{subst}
use contextrail.Rail.Discover.{
  Intent, Person, Hris, lookup, NeedRole, of_subject, of_peer, NeedsInput, Discovery, Resolved, one,
  asks, given, asked, one_of, resolve_asked, resolve_one, needs_subject, is_same_as_peer,
  subject_part, person_of, subject_needs, peer_of, peer_part, is_empty, discover, is_person,
  unclear,
}

-- The words that were given for a person name one person in the HRIS and no other.
abbrev pub IsOnly : Hris → Option String → Option String → Person → Type 0
IsOnly hris mention pinned p =
    (m : String) × (asked mention pinned ≡ some m) × (lookup hris m ≡ some (p ∷ []))

one_of-one :
    (role : NeedRole) (m : String) (l : List Person) (p : Person)
    → one_of role m l ≡ one p
    → l ≡ p ∷ []
one_of-one role m [] p e = cc
one_of-one role m (q ∷ []) p e = cc
one_of-one role m (q ∷ r ∷ l) p e = cc

resolve_asked-one :
    (hris : Hris) (role : NeedRole) (o : Option String) (p : Person)
    → resolve_asked hris role o ≡ some (one p)
    → (m : String) × (o ≡ some m) × (lookup hris m ≡ some (p ∷ []))
resolve_asked-one hris role none p e = cc
resolve_asked-one hris role (some m) p e =
    let (l, q, e') = >>=-eq-some (lookup hris m) _ e in
    (m, refl, q ∙ ap some (one_of-one role m l p (some-eq-some e')))

resolve_one-IsOnly :
    (hris : Hris) (mention pinned : Option String) (role : NeedRole) (r : Resolved) (p : Person)
    → resolve_one hris mention role pinned ≡ some r
    → r ≡ one p
    → IsOnly hris mention pinned p
unfolding resolve_one
resolve_one-IsOnly hris mention pinned role r p e q =
    resolve_asked-one hris role (asked mention pinned) p (e ∙ ap some q)

-- What the subject is, when no question about them is left.
subject_part-IsOnly :
    (hris : Hris) (i : Intent) (subject_id : Option String) (s : Option Resolved) (p : Person)
    → subject_part hris i subject_id ≡ some s
    → person_of s ≡ some p
    → IsOnly hris i.subject_mention subject_id p
subject_part-IsOnly hris i subject_id s p e q =
    elim (Bool-cases (needs_subject i.intent || given subject_id || given i.subject_mention)) [
      | inl t ↦
          let (r, f, g) =
            >>=-eq-some (resolve_one hris i.subject_mention of_subject subject_id) _ (rw t at e) in
          resolve_one-IsOnly hris i.subject_mention subject_id of_subject r p f
            (is_one r (ap person_of (some-eq-some g) ∙ q))
      | inr f ↦ absurd (cc (ap person_of (some-eq-some (rw f at e)), q))
    ]
  where
    is_one : (r : Resolved) → person_of (some r) ≡ some p → r ≡ one p
    is_one (one x) h = ap one (some-eq-some h)
    is_one (asks n) h = cc

append-nil : {A : Type 0} (xs ys : List A) → xs ++ ys ≡ [] → (xs ≡ []) × (ys ≡ [])
append-nil [] ys e = (refl, e)
append-nil (x ∷ xs) ys e = cc

is_empty-nil : (l : List NeedsInput) → is_empty l ≡ true → l ≡ []
is_empty-nil [] e = refl
is_empty-nil (n ∷ l) e = cc

subject_found :
    (hris : Hris) (i : Intent) (subject_id : Option String) (s : Option Resolved)
    → subject_part hris i subject_id ≡ some s
    → subject_needs i s ≡ []
    → needs_subject i.intent ≡ true
    → (p : Person) × (person_of s ≡ some p)
subject_found hris i subject_id none e n t =
    let (r, _, g) =
      >>=-eq-some (resolve_one hris i.subject_mention of_subject subject_id) _ (rw t at e) in
    absurd (cc (some-eq-some g))
subject_found hris i subject_id (some (one p)) e n t = (p, refl)
subject_found hris i subject_id (some (asks x)) e n t = absurd (cc (rw t at n))

-- What the peer of a request is, when no question about them is left: another person than the
-- subject.
abbrev pub IsPeer : Hris → Intent → Option Person → Option String → Person → Type 0
IsPeer hris i subject peer_id q =
    IsOnly hris i.peer_mention peer_id q × (is_person q subject ≡ false)

peer_of-IsPeer :
    (hris : Hris) (i : Intent) (subject : Option Person) (peer_id : Option String) (r : Resolved)
    → resolve_one hris i.peer_mention of_peer peer_id ≡ some r
    → (peer_of i subject r).1 ≡ []
    → (q : Person) × ((peer_of i subject r).0 ≡ some q) × IsPeer hris i subject peer_id q
peer_of-IsPeer hris i subject peer_id (asks n) e none_left = cc
peer_of-IsPeer hris i subject peer_id (one q) e none_left =
    elim (Bool-cases (is_person q subject)) [
      | inl t ↦ absurd (cc (rw t at none_left))
      | inr f ↦ (
        q,
        rw f refl,
        (resolve_one-IsOnly hris i.peer_mention peer_id of_peer (one q) q e refl, f),
      )
    ]

peer_part-IsPeer :
    (hris : Hris) (i : Intent) (subject : Option Person) (peer_id : Option String)
    (o : Option Person × List NeedsInput)
    → peer_part hris i subject peer_id ≡ some o
    → o.1 ≡ []
    → is_same_as_peer i.intent ≡ true
    → (q : Person) × (o.0 ≡ some q) × IsPeer hris i subject peer_id q
peer_part-IsPeer hris i subject peer_id o e none_left t =
    let (r, f, g) = >>=-eq-some (resolve_one hris i.peer_mention of_peer peer_id) _ (rw t at e) in
    let same = some-eq-some g in
    let (q, h, k) = peer_of-IsPeer hris i subject peer_id r f (ap (λ x. x.1) same ∙ none_left) in
    (q, sym (ap (λ x. x.0) same) ∙ h, k)

-- Nobody is guessed: when a request is resolved, an intent that needs a subject has one, whoever is
-- the subject is the only person that the pinned id, or else the words of the request, name in the
-- HRIS, and a request for the same access as a peer has a peer, the only person that its id or words
-- name, who is not the subject.
pub discover-IsExact :
    (hris : Hris) (i : Intent) (subject_id peer_id : Option String) (d : Discovery)
    → discover hris i subject_id peer_id ≡ some d
    → d.is_resolved ≡ true
    → (needs_subject i.intent ≡ true → (p : Person) × (d.subject ≡ some p))
      × ((p : Person) → d.subject ≡ some p → IsOnly hris i.subject_mention subject_id p)
      × (is_same_as_peer i.intent ≡ true
          → (q : Person) × (d.peer ≡ some q) × IsPeer hris i d.subject peer_id q)
unfolding discover
discover-IsExact hris i subject_id peer_id d e resolved =
    let (s, es, e') = >>=-eq-some (subject_part hris i subject_id) _ e in
    let (o, eo, e'') = >>=-eq-some (peer_part hris i (person_of s) peer_id) _ e' in
    let same = some-eq-some e'' in
    let no_needs = is_empty-nil _ (ap (λ x. x.is_resolved) same ∙ resolved) in
    let (_, rest) = append-nil (unclear i.kind i.intent) _ no_needs in
    let (of_s, of_p) = append-nil (subject_needs i s) o.1 rest in
    subst
      (λ x.
        (needs_subject i.intent ≡ true → (p : Person) × (x.subject ≡ some p))
        × ((p : Person) → x.subject ≡ some p → IsOnly hris i.subject_mention subject_id p)
        × (is_same_as_peer i.intent ≡ true
            → (q : Person) × (x.peer ≡ some q) × IsPeer hris i x.subject peer_id q))
      same
      (
        subject_found hris i subject_id s es of_s,
        λ p. subject_part-IsOnly hris i subject_id s p es,
        peer_part-IsPeer hris i (person_of s) peer_id o eo of_p,
      )
