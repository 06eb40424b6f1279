-- ===== src/Rail/Compile.antt =====
-- engine/contextrail/rail/compile.py: the evidence of a case, its constraints and its blockers.
use Prim.Native.Char.{code}
use contextrail.Prelude.{
  ℕ, ◌+◌, ◌-◌, ◌/◌, ltb, Bool, true, false, not, ◌&&◌, ◌||◌, String, Option, none, some, get_or,
  ◌>>=◌, List, [], ◌∷◌, ◌++◌, map, contains, any, ◌==◌, str_eq, if◌then◌else◌, decimal, ◌&◌,
}
use contextrail.Models.Value.{Fields}
use contextrail.Models.Subject.{Subject, EmploymentType, employee, contractor, vendor, customer}
use contextrail.Models.Evidence.{
  EvidenceKind, record_kind, policy, document, message, precedent, record_trust, curated, untrusted,
  Evidence,
}
use contextrail.Models.Dump.{kind_name, trust_name}
use contextrail.Policy.Python.{remove_prefix, str_le}
use contextrail.Policy.Schema.{Rule}
use contextrail.Policy.Matchers.{applies_to}
use contextrail.Rail.Govern.{CompileInputs}

-- The ordinal of the day of a time in microseconds since the epoch.
abbrev pub day_of : ℕ → ℕ
day_of now = now / 86400000000 + 719163

-- A record of the HRIS: the subject that it is read as, its `last_verified`, and the texts of its
-- employment type, role, team and seniority in an f-string.
pub record HrisRecord : Type 0 where
  pub subject : Subject
  pub last_verified : Option ℕ
  pub employment_text : String
  pub role_text : String
  pub team_text : String
  pub seniority_text : String

-- `_record_evidence`
unfoldable pub record_evidence : HrisRecord → ℕ → Evidence
record_evidence r now = record {
  id = "EV-hris-" & r.subject.source_id;
  kind = record_kind;
  source = "hris";
  uri = "hris://people/" & r.subject.source_id;
  excerpt =
      r.subject.display_name & ": " & r.employment_text & ", role " & r.role_text & ", team "
      & r.team_text & ", seniority " & r.seniority_text;
  retrieved_at = now;
  last_verified = some (get_or r.last_verified (day_of now));
  stale = false;
  trust = record_trust;
}

-- `_policy_evidence`
unfoldable pub policy_evidence : Rule → ℕ → Evidence
policy_evidence r now = record {
  id = "EV-" & r.id;
  kind = policy;
  source = "policy";
  uri = r.okf & "#" & r.clause;
  excerpt = r.clause_text;
  retrieved_at = now;
  last_verified = none;
  stale = false;
  trust = curated;
}

-- `_missing_policy`
unfoldable pub missing_policy : Rule → String
missing_policy r =
    "Policy text missing: " & r.id & " cites " & r.okf & " " & r.clause
    & ", but that page does not carry the rule's clause text. Restore the page before acting."

-- knowledge/query.py on a bundle: the dated clause of a rule, and the precedents of rules
pub record Knowledge : Type 0 where
  pub rule_evidence : Rule → ℕ → Option Evidence
  pub precedent_evidence : List String → ℕ → List Evidence

abbrev rule_step :
    Rule → ℕ → Option Evidence → List Evidence × List String → List Evidence × List String
rule_step r now (some e) (es, bs) = (e ∷ es, bs)
rule_step r now none (es, bs) = (policy_evidence r now ∷ es, missing_policy r ∷ bs)

unfoldable pub clauses : Knowledge → ℕ → List Rule → List Evidence × List String
clauses k now [] = ([], [])
clauses k now (r ∷ rs) = rule_step r now (k.rule_evidence r now) (clauses k now rs)

-- `_knowledge_evidence`
unfoldable pub knowledge_evidence : Knowledge → List Rule → ℕ → List Evidence × List String
knowledge_evidence k rules now =
    let found = clauses k now rules in
    (found.0 ++ k.precedent_evidence (map (λ (r : Rule). r.id) rules) now, found.1)

-- The connector of entitlements; `none` is an error of a read.
pub record Entitlements : Type 0 where
  pub holdings : String → Option (List String)
  pub catalog : Option Fields

abbrev holdings_of : Entitlements → Option HrisRecord → Option (List String)
holdings_of e none = some []
holdings_of e (some r) = e.holdings r.subject.source_id

abbrev peer_evidence : Option HrisRecord → ℕ → List Evidence
peer_evidence none now = []
peer_evidence (some r) now = record_evidence r now ∷ []

abbrev rule_evidence_of : Option Knowledge → List Rule → ℕ → List Evidence × List String
rule_evidence_of none rules now = (map (λ r. policy_evidence r now) rules, [])
rule_evidence_of (some k) rules now = knowledge_evidence k rules now

-- `gather_inputs`; `role_entry` is the entry of the role catalogue for the role of the subject.
unfoldable pub gather_inputs :
    Entitlements
    → (Option String → Fields)
    → HrisRecord
    → Option HrisRecord
    → List Rule
    → ℕ
    → Option Knowledge
    → Option CompileInputs
gather_inputs entitlements role_entry subject peer rules now knowledge = do
  held ← holdings_of entitlements (some subject)
  peer_held ← holdings_of entitlements peer
  catalog ← entitlements.catalog
  let found = rule_evidence_of knowledge rules now
  some (record {
    subject_holdings = held;
    peer_holdings = peer_held;
    catalog = catalog;
    role = role_entry subject.subject.role;
    evidence = record_evidence subject now ∷ (peer_evidence peer now ++ found.0);
    blockers = found.1;
  })

abbrev join_comma : List String → String
join_comma [] = ""
join_comma (s ∷ []) = s
join_comma (s ∷ t ∷ l) = s & ", " & join_comma (t ∷ l)

abbrev is_external : EmploymentType → Bool
is_external contractor = true
is_external vendor = true
is_external _ = false

abbrev repo_constraint : List String → List String
repo_constraint [] = []
repo_constraint (r ∷ rs) =
    ("Repository access read-only and limited to the SOW: " & join_comma (r ∷ rs) & ".") ∷ []

abbrev end_constraint : (ℕ → String) → Option ℕ → List String
end_constraint isoformat none = []
end_constraint isoformat (some d) =
    ("All access expires on the SOW end date " & isoformat d & ".") ∷ []

unfoldable pub subject_constraints : (ℕ → String) → Subject → List String
subject_constraints isoformat s =
    if is_external s.employment_type
    then "No production credentials, production database access or customer PII exports (POL-CTR-001)."
      ∷ (repo_constraint s.sow_repos ++ end_constraint isoformat s.end_date)
    else []

-- The frontmatter of a page that the code reads; `page_type` is in lower case.
pub record Page : Type 0 where
  pub path : String
  pub page_type : String
  pub title : Option String
  pub description : Option String
  pub tags : List String
  pub rules : List String
  pub last_verified : Option ℕ

pub record ConceptLoad : Type 0 where
  pub configured : Bool
  pub evidence : List Evidence
  pub missing_sources : List String

abbrev employment_tag : EmploymentType → String
employment_tag employee = "employees"
employment_tag contractor = "contractors"
employment_tag vendor = "vendors"
employment_tag customer = "customers"

abbrev intent_tags : String → List String
intent_tags intent =
    if str_eq intent "onboarding"
    then "onboarding" ∷ []
    else if str_eq intent "refund.outage"
    then "refunds" ∷ "credits" ∷ []
    else []

abbrev non_empty : Option String → List String
non_empty none = []
non_empty (some s) = if str_eq s "" then [] else s ∷ []

abbrev case_tags : Subject → String → List String
case_tags s intent =
    intent_tags intent
    ++ (employment_tag s.employment_type ∷ (non_empty s.role ++ non_empty s.team))

-- the rules that apply to the subject; `none` is an error of `applies_to`
abbrev applying : Subject → List Rule → Option (List Rule)
applying s [] = some []
applying s (r ∷ rs) =
    let rest = applying s rs in applies_to r s >>= λ b. rest >>= λ l. some (if b then r ∷ l else l)

abbrev meets : List String → List String → Bool
meets xs ys = any (λ x. contains x ys) xs

abbrev role_page : Option String → String
role_page none = "roles/None.md"
role_page (some r) = "roles/" & r & ".md"

unfoldable pub is_linked : List String → List String → Subject → Page → Bool
is_linked rule_ids tags s p =
    (not (str_eq p.page_type "role") && meets rule_ids p.rules)
    || meets tags p.tags
    || str_eq p.path (role_page s.role)

abbrev excerpt_of : Page → String
excerpt_of p =
    let title : String = elim (non_empty p.title) [ [] ↦ p.path | t ∷ _ ↦ t ] in
    elim (non_empty p.description) [ [] ↦ title | d ∷ _ ↦ title & ": " & d ]

abbrev page_evidence : ℕ → Page → Evidence
page_evidence now p = record {
  id = "EV-okf-" & p.path;
  kind = if str_eq p.page_type "precedent" then precedent else policy;
  source = "okf";
  uri = "okf:" & p.path;
  excerpt = excerpt_of p;
  retrieved_at = now;
  last_verified = p.last_verified;
  stale = false;
  trust = curated;
}

abbrev insert_page : Page → List Page → List Page
insert_page p [] = p ∷ []
insert_page p (q ∷ qs) =
    let rest = insert_page p qs in if str_le p.path q.path then p ∷ q ∷ qs else q ∷ rest

-- sorted(pages, key=lambda p: p.path)
abbrev sort_pages : List Page → List Page
sort_pages [] = []
sort_pages (p ∷ ps) = insert_page p (sort_pages ps)

abbrev linked_evidence : ℕ → (Page → Bool) → List Page → List Evidence
linked_evidence now f [] = []
linked_evidence now f (p ∷ ps) =
    let rest = linked_evidence now f ps in if f p then page_evidence now p ∷ rest else rest

abbrev insert_new : String → List String → List String
insert_new s [] = s ∷ []
insert_new s (t ∷ ts) =
    let rest = insert_new s ts in
    if str_eq s t then t ∷ ts else if str_le s t then s ∷ t ∷ ts else t ∷ rest

-- sorted({...} - have)
abbrev missing_paths : List String → List Rule → List String
missing_paths have [] = []
missing_paths have (r ∷ rs) =
    let rest = missing_paths have rs in
    let path = remove_prefix "knowledge/" r.okf in
    if contains path have then rest else insert_new path rest

abbrev load_pages : List Page → Subject → String → ℕ → List Rule → ConceptLoad
load_pages pages s intent now rules = record {
  configured = true;
  evidence =
      linked_evidence now (is_linked (map (λ (r : Rule). r.id) rules) (case_tags s intent) s)
        (sort_pages pages);
  missing_sources = missing_paths (map (λ (p : Page). p.path) pages) rules;
}

unfoldable pub load_concepts :
    Option (List Page) → Subject → String → List Rule → ℕ → Option ConceptLoad
load_concepts none s intent rules now =
    some (record { configured = false; evidence = []; missing_sources = [] })
load_concepts (some pages) s intent rules now = do
  found ← applying s rules
  some (load_pages pages s intent now found)

-- A literal before a text, character by character.
abbrev before : String → String → String
before String.[] t = t
before (String.◌∷◌ c s) t = String.◌∷◌ c (before s t)

-- text.replace("<", "&lt;").replace(">", "&gt;")
unfoldable pub escape : String → String
escape String.[] = ""
escape (String.◌∷◌ c s) =
    let rest = escape s in
    if code c == b'<'
    then before "&lt;" rest
    else if code c == b'>'
    then before "&gt;" rest
    else String.◌∷◌ c rest

unfoldable pub wrap_untrusted : Evidence → String
wrap_untrusted e =
    "<untrusted source=\""
    & e.source
    & "\" uri=\""
    & e.uri
    & "\" trust=\""
    & trust_name e.trust
    & "\">\n"
    & escape e.excerpt
    & "\n</untrusted>"

abbrev pub freshness_days : EvidenceKind → ℕ
freshness_days record_kind = 90
freshness_days policy = 365
freshness_days precedent = 180
freshness_days document = 180
freshness_days message = 30

abbrev pub is_deciding : EvidenceKind → Bool
is_deciding record_kind = true
is_deciding policy = true
is_deciding precedent = true
is_deciding _ = false

-- The age in days is compared as `today > last + budget`, which is right for dates to come too.
abbrev pub is_old : ℕ → EvidenceKind → ℕ → Bool
is_old today k last = ltb (last + freshness_days k) today

abbrev pub stale_blocker : (ℕ → String) → ℕ → Evidence → ℕ → String
stale_blocker isoformat today e last =
    "Stale "
    & kind_name e.kind
    & ": "
    & e.uri
    & " last verified "
    & isoformat last
    & " ("
    & decimal (today - last)
    & " days; budget "
    & decimal (freshness_days e.kind)
    & "). Re-verify before acting."

abbrev pub judge : (ℕ → String) → ℕ → Evidence → Option ℕ → Evidence × List String
judge isoformat today e none = (e, [])
judge isoformat today e (some last) = (
  (record e { stale = is_old today e.kind last }),
  (if is_old today e.kind last && is_deciding e.kind
      then stale_blocker isoformat today e last ∷ []
      else []),
)

-- `mark_stale` on the day `today`
unfoldable pub mark_stale : (ℕ → String) → ℕ → List Evidence → List Evidence × List String
mark_stale isoformat today [] = ([], [])
mark_stale isoformat today (e ∷ es) =
    let rest = mark_stale isoformat today es in
    let j = judge isoformat today e e.last_verified in (j.0 ∷ rest.0, j.1 ++ rest.1)

-- A message of the corpus.
pub record Posted : Type 0 where
  pub id : String
  pub channel_id : String
  pub ts : String
  pub text : String
  pub day : ℕ

unfoldable pub message_evidence : ℕ → Posted → Evidence
message_evidence now m = record {
  id = "EV-" & m.id;
  kind = message;
  source = "slack";
  uri = "slack://" & m.channel_id & "/" & m.ts;
  excerpt = m.text;
  retrieved_at = now;
  last_verified = some m.day;
  stale = false;
  trust = untrusted;
}

-- `search` is that of the corpus.
unfoldable pub retrieve_messages : (List String → ℕ → List Posted) → List String → ℕ → List Evidence
retrieve_messages search terms now = map (message_evidence now) (search terms 5)
