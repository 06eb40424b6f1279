-- ===== src/Rail/Discover.antt =====
-- engine/contextrail/rail/discover.py: from the words of a request to the people it is about.
use Prim.Native.Char.{Char, code}
use contextrail.Prelude.{
  ℕ, Bool, true, false, not, ◌&&◌, ◌||◌, String, Option, none, some, ◌>>=◌, List, [], ◌∷◌, ◌++◌,
  map, codes, leb, ◌==◌, str_eq, if◌then◌else◌,
}
use contextrail.Models.Value.{Fields}
use contextrail.Models.Subject.{Subject, EmploymentType}

pub data IntentName : Type 0 where
  same_as_peer onboarding access_request refund_outage query_intent approval_reply_intent
        unknown_intent :
      IntentName

pub data RequestKind : Type 0 where
  request query approval_reply : RequestKind

pub record Intent : Type 0 where
  pub intent : IntentName
  pub kind : RequestKind
  pub subject_mention : Option String
  pub peer_mention : Option String
  pub dates : List String
  pub extractor : String

-- A person as the HRIS has them: the record, and what `subject_from_record` makes of it.
pub record Person : Type 0 where
  pub fields : Fields
  pub subject : Subject

-- What reading one record gives: the person, ConnectorError, or another error, which propagates.
pub data Read : Type 0 where
  found_one : Person → Read
  connector_error : Read
  outage : Read

-- The reads of the HRIS; `none` is an error.
pub record Hris : Type 0 where
  pub read : String → Read
  pub find_by_name : String → Option (List Person)

abbrev is_space : ℕ → Bool
is_space c = c == 32 || (leb 9 c && leb c 13)

abbrev left_strip : String → String
left_strip String.[] = ""
left_strip (String.◌∷◌ c s) =
    let rest = left_strip s in if is_space (code c) then rest else String.◌∷◌ c s

abbrev unless_blank : Char → String → String
unless_blank c String.[] = if is_space (code c) then "" else String.◌∷◌ c String.[]
unless_blank c (String.◌∷◌ d s) = String.◌∷◌ c (String.◌∷◌ d s)

abbrev right_strip : String → String
right_strip String.[] = ""
right_strip (String.◌∷◌ c s) = unless_blank c (right_strip s)

-- mention.strip(), for ASCII
abbrev strip : String → String
strip s = right_strip (left_strip s)

abbrev is_digit : ℕ → Bool
is_digit c = leb b'0' c && leb c b'9'

abbrev is_id_code : List ℕ → Bool
is_id_code (k ∷ m ∷ a ∷ b ∷ c ∷ d ∷ []) =
    (k == b'E' || k == b'W' || k == b'V')
    && m == b'-'
    && (is_digit a && is_digit b && is_digit c && is_digit d)
is_id_code _ = false

-- _ID_RE.match(mention), for ASCII digits
unfoldable pub is_id : String → Bool
is_id s = is_id_code (codes s)

abbrev matches_of : Read → Option (List Person)
matches_of (found_one p) = some (p ∷ [])
matches_of connector_error = some []
matches_of outage = none

-- Every exact match of a mention; `none` is an outage.
unfoldable pub lookup : Hris → String → Option (List Person)
lookup hris mention =
    let m = strip mention in if is_id m then matches_of (hris.read m) else hris.find_by_name m

pub record Candidate : Type 0 where
  pub source_id : String
  pub display_name : String
  pub team : Option String
  pub role : Option String
  pub employment_type : EmploymentType

abbrev candidate : Person → Candidate
candidate p = record {
  source_id = p.subject.source_id;
  display_name = p.subject.display_name;
  team = p.subject.team;
  role = p.subject.role;
  employment_type = p.subject.employment_type;
}

pub data NeedReason : Type 0 where
  no_mention no_match ambiguous same_person unclear_request : NeedReason

pub data NeedRole : Type 0 where
  of_subject of_peer of_request : NeedRole

pub record NeedsInput : Type 0 where
  pub role : NeedRole
  pub mention : Option String
  pub reason : NeedReason
  pub candidates : List Candidate

pub record Discovery : Type 0 where
  pub is_resolved : Bool
  pub intent : Intent
  pub subject : Option Person
  pub peer : Option Person
  pub needs : List NeedsInput

-- One person or one question.
pub data Resolved : Type 0 where
  one : Person → Resolved
  asks : NeedsInput → Resolved

abbrev pub given : Option String → Bool
given none = false
given (some s) = not (str_eq s "")

-- The words that are looked up: a pinned id before the mention.
abbrev pub asked : Option String → Option String → Option String
asked mention pinned = if given pinned then pinned else if given mention then mention else none

abbrev pub one_of : NeedRole → String → List Person → Resolved
one_of role m [] =
    asks (record { role = role; mention = some m; reason = no_match; candidates = [] })
one_of role m (p ∷ []) = one p
one_of role m (p ∷ q ∷ ps) = asks (record {
  role = role;
  mention = some m;
  reason = ambiguous;
  candidates = map candidate (p ∷ q ∷ ps);
})

abbrev pub resolve_asked : Hris → NeedRole → Option String → Option Resolved
resolve_asked hris role none =
    some (asks (record { role = role; mention = none; reason = no_mention; candidates = [] }))
resolve_asked hris role (some m) = do records ← lookup hris m; some (one_of role m records)

unfoldable pub resolve_one : Hris → Option String → NeedRole → Option String → Option Resolved
resolve_one hris mention role pinned = resolve_asked hris role (asked mention pinned)

abbrev pub needs_subject : IntentName → Bool
needs_subject same_as_peer = true
needs_subject onboarding = true
needs_subject access_request = true
needs_subject _ = false

abbrev pub is_same_as_peer : IntentName → Bool
is_same_as_peer same_as_peer = true
is_same_as_peer _ = false

abbrev pub unclear : RequestKind → IntentName → List NeedsInput
unclear request unknown_intent =
    (record { role = of_request; mention = none; reason = unclear_request; candidates = [] }) ∷ []
unclear _ _ = []

abbrev pub subject_part : Hris → Intent → Option String → Option (Option Resolved)
subject_part hris i subject_id =
    if needs_subject i.intent || given subject_id || given i.subject_mention
    then (resolve_one hris i.subject_mention of_subject subject_id >>= λ r. some (some r))
    else some none

abbrev pub person_of : Option Resolved → Option Person
person_of (some (one p)) = some p
person_of _ = none

abbrev pub subject_needs : Intent → Option Resolved → List NeedsInput
subject_needs i (some (asks n)) =
    if needs_subject i.intent || given i.subject_mention then n ∷ [] else []
subject_needs i _ = []

abbrev pub is_person : Person → Option Person → Bool
is_person q none = false
is_person q (some p) = str_eq q.subject.source_id p.subject.source_id

abbrev pub peer_of : Intent → Option Person → Resolved → Option Person × List NeedsInput
peer_of i subject (asks n) = (none, n ∷ [])
peer_of i subject (one q) =
    if is_person q subject
    then (
      none,
      (record { role = of_peer; mention = i.peer_mention; reason = same_person; candidates = [] })
          ∷ [],
    )
    else (some q, [])

abbrev pub peer_part :
    Hris → Intent → Option Person → Option String → Option (Option Person × List NeedsInput)
peer_part hris i subject peer_id =
    if is_same_as_peer i.intent
    then (resolve_one hris i.peer_mention of_peer peer_id >>= λ r. some (peer_of i subject r))
    else some (none, [])

abbrev pub is_empty : List NeedsInput → Bool
is_empty [] = true
is_empty (n ∷ ns) = false

-- `discover` on what the extractor returned; `none` is an outage of the HRIS.
unfoldable pub discover : Hris → Intent → Option String → Option String → Option Discovery
discover hris i subject_id peer_id = do
  s ← subject_part hris i subject_id
  p ← peer_part hris i (person_of s) peer_id
  let needs = unclear i.kind i.intent ++ (subject_needs i s ++ p.1)
  some (record {
    is_resolved = is_empty needs;
    intent = i;
    subject = person_of s;
    peer = p.0;
    needs = needs;
  })
