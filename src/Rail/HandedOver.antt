-- ===== src/Rail/HandedOver.antt =====
-- What the receiving side of a handoff accepts (engine/contextrail/rail/handoff.py).
use contextrail.Prelude.{
  Bool, true, false, String, Option, none, some, [], ◌∷◌, ◌≡◌, refl, sym, >>=-eq-some, some-eq-some,
  if◌then◌else◌, str_eq, arith,
}
use mathlib.Core.Path.{subst}
use contextrail.Models.Value.{dict, Fields}
use contextrail.Models.Case.{CaseFile}
use contextrail.Models.Dump.{JsonMode}
use contextrail.Models.Equality.{has_own_keys, equal_refl}
use contextrail.Canonical.{Encoder}
use contextrail.Capsule.{Checked, ok, digest_mismatch, invalid, verify}
use contextrail.Capsule.Seal.{str_eq_refl}
use contextrail.Rail.Handoff.{
  Team, it, security, team_name, TeamView, project, view_digest, and_then, or_invalid, cut,
  build_team_view, same_view, digest_is, check_projection, receive_view, hop, hand_over,
  leaks_fields,
}

-- What the view of a team holds.
abbrev pub IsCut : Encoder → JsonMode → Team → CaseFile → TeamView → Type 0
IsCut enc js team c v =
    (v.team ≡ team)
    × (v.run_id ≡ c.run_id)
    × (c.digest ≡ some v.capsule_digest)
    × (project js team c ≡ some v.body)
    × (view_digest enc team c.run_id v.capsule_digest v.body ≡ some v.view_digest)

cut-IsCut :
    (enc : Encoder) (js : JsonMode) (team : Team) (c : CaseFile) (v : TeamView)
    → cut enc js team c ≡ some v
    → IsCut enc js team c v
cut-IsCut enc js team c v e =
    let (digest, p, e') = >>=-eq-some c.digest _ e in
    let (body, q, e'') = >>=-eq-some (project js team c) _ e' in
    let (own, r, e''') = >>=-eq-some (view_digest enc team c.run_id digest body) _ e'' in
    subst (λ w. IsCut enc js team c w) (some-eq-some e''') (refl, refl, p, q, r)

same_view_refl : (v : TeamView) → has_own_keys (dict v.body) ≡ true → same_view v v ≡ true
same_view_refl v own =
    rw
      (
        str_eq_refl (team_name v.team),
        str_eq_refl v.run_id,
        str_eq_refl v.capsule_digest,
        equal_refl (dict v.body) own,
        str_eq_refl v.view_digest,
      )
      refl

build_team_view-cut :
    (enc : Encoder) (js : JsonMode) (team : Team) (c : CaseFile) (v : TeamView)
    → verify enc c ≡ ok c
    → cut enc js team c ≡ some v
    → build_team_view enc js c team ≡ ok v
unfolding build_team_view
build_team_view-cut enc js team c v s e = rw (s, e) refl

receive_view-cut :
    (enc : Encoder) (js : JsonMode) (team : Team) (c : CaseFile) (v : TeamView)
    → verify enc c ≡ ok c
    → cut enc js team c ≡ some v
    → has_own_keys (dict v.body) ≡ true
    → receive_view enc js v c ≡ ok v
unfolding receive_view
receive_view-cut enc js team c v s e own =
    let (t, r, d, b, h) = cut-IsCut enc js team c v e in
    let h' : view_digest enc v.team v.run_id v.capsule_digest v.body ≡ some v.view_digest =
      rw (t, r) h in
    let b' : build_team_view enc js c v.team ≡ ok v =
      subst (λ x. build_team_view enc js c x ≡ ok v) (sym t)
        (build_team_view-cut enc js team c v s e) in
    let di : digest_is c.digest v.capsule_digest ≡ true = rw d (str_eq_refl v.capsule_digest) in
    rw (h', str_eq_refl v.view_digest, di, b', same_view_refl v own) refl

hop-cut :
    (enc : Encoder) (js : JsonMode) (parse : TeamView → Option TeamView) (team : Team)
    (c : CaseFile) (v : TeamView)
    → verify enc c ≡ ok c
    → cut enc js team c ≡ some v
    → has_own_keys (dict v.body) ≡ true
    → parse v ≡ some v
    → hop enc js parse c team ≡ ok v
hop-cut enc js parse team c v s e own p =
    rw (build_team_view-cut enc js team c v s e, p) (receive_view-cut enc js team c v s e own)

-- A handoff delivers: for a sealed case from which both views can be cut, each view passes all the
-- checks of the receiving side and arrives as it was cut, provided that parsing a printed view gives
-- it back and that the dicts of the views have each key once.
pub hand_over-delivers :
    (enc : Encoder) (js : JsonMode) (parse : TeamView → Option TeamView) (c : CaseFile)
    (v w : TeamView)
    → verify enc c ≡ ok c
    → cut enc js it c ≡ some v
    → cut enc js security c ≡ some w
    → (has_own_keys (dict v.body) ≡ true) × (has_own_keys (dict w.body) ≡ true)
    → (parse v ≡ some v) × (parse w ≡ some w)
    → hand_over enc js parse c ≡ ok ((it, v) ∷ (security, w) ∷ [])
unfolding hand_over
hand_over-delivers enc js parse c v w s e e' (own, own') (p, p') =
    rw (hop-cut enc js parse it c v s e own p, hop-cut enc js parse security c w s e' own' p') refl

and_then-ok :
    {A B : Type 0} (m : Checked A) (f : A → Checked B) (b : B)
    → and_then m f ≡ ok b
    → (a : A) × (m ≡ ok a) × (f a ≡ ok b)
and_then-ok (ok a) f b e = (a, refl, e)
and_then-ok (digest_mismatch x y) f b e = cc
and_then-ok invalid f b e = cc

or_invalid-ok : {A : Type 0} (o : Option A) (a : A) → or_invalid o ≡ ok a → o ≡ some a
or_invalid-ok none a e = cc
or_invalid-ok (some b) a e = cc

if-ok :
    {A : Type 0} (b : Bool) (m : Checked A) (s : Option String) (t : String) (a : A)
    → (if b then m else digest_mismatch s t) ≡ ok a
    → (b ≡ true) × (m ≡ ok a)
if-ok true m s t a e = (refl, e)
if-ok false m s t a e = cc

no-leak :
    (js : JsonMode) (team : Team) (c : CaseFile) (body : Fields)
    → project js team c ≡ some body
    → team ≡ security
    → leaks_fields body ≡ false
unfolding project
no-leak js it c body e t = cc
no-leak js security c body e t = ground arith

-- Nothing but the allow-listed projection is accepted: a view that the receiver takes passed through
-- unchanged, the case it was cut from has its seal, and the view equals the one that
-- `build_team_view` cuts from that case for that team, which for Security has no
-- key that looks like a salary.
pub receive_view-IsCut :
    (enc : Encoder) (js : JsonMode) (view got : TeamView) (c : CaseFile)
    → receive_view enc js view c ≡ ok got
    → (got ≡ view)
      × ((expected : TeamView) × (build_team_view enc js c view.team ≡ ok expected)
          × IsCut enc js view.team c expected
          × (same_view view expected ≡ true)
          × (view.team ≡ security → leaks_fields expected.body ≡ false))
unfolding receive_view build_team_view
receive_view-IsCut enc js view got c e =
    let (own, p, q) =
      and_then-ok (or_invalid (view_digest enc view.team view.run_id view.capsule_digest view.body))
        _ got e in
    let (a, q') = if-ok (str_eq own view.view_digest) _ (some view.view_digest) own got q in
    let (b, q'') =
      if-ok (digest_is c.digest view.capsule_digest) _ c.digest view.capsule_digest got q' in
    let (expected, built, q''') =
      and_then-ok (build_team_view enc js c view.team) (check_projection view) got q'' in
    let (same, done) =
      if-ok (same_view view expected) (ok view) (some expected.view_digest) view.view_digest got
        q''' in
    let (_, _, k) = and_then-ok (verify enc c) _ expected built in
    let is_cut =
      cut-IsCut enc js view.team c expected (or_invalid-ok (cut enc js view.team c) expected k) in
    let (_, _, _, projected, _) = is_cut in
    (sym (cc done), (expected, built, is_cut, same, no-leak js view.team c expected.body projected))
