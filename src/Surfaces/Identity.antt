-- ===== src/Surfaces/Identity.antt =====
-- Who stands at a door: `resolve_actor` of engine/contextrail/surfaces/door.py over the identity_map
-- table. `lower` is Postgres' function of that name.
use contextrail.Prelude.{
  codes, Bool, false, String, Option, none, some, List, find?, str_eq, if◌then◌else◌,
}
use contextrail.Prelude.{any, ◌==◌, ℕ}

pub data Channel : Type 0 where
  slack teams email voice freshservice mcp : Channel

pub record Identity : Type 0 where
  pub person_id : String
  pub hris_id : Option String
  pub slack_user_id : Option String
  pub teams_aad_id : Option String
  pub email : Option String
  pub phone : Option String
  pub fs_requester_id : Option String
  pub fs_agent_id : Option String

-- the columns that are searched
pub data Column : Type 0 where
  by_slack by_teams by_email by_phone by_requester by_agent by_person : Column

-- "@" in text
abbrev has_at : String → Bool
has_at s = any (λ (c : ℕ). c == b'@') (codes s)

abbrev column : Channel → Bool → String → Column
column slack for_approval id = by_slack
column teams for_approval id = by_teams
column email for_approval id = by_email
column voice for_approval id = by_phone
column mcp for_approval id = by_person
column freshservice for_approval id =
    if for_approval then by_agent else if has_at id then by_email else by_requester

-- a comparison with NULL does not hold
abbrev holds : (String → String) → Option String → String → Bool
holds fold none id = false
holds fold (some v) id = str_eq (fold v) (fold id)

abbrev exact : String → String
exact s = s

abbrev fits : (String → String) → Column → String → Identity → Bool
fits lower by_slack id r = holds exact r.slack_user_id id
fits lower by_teams id r = holds exact r.teams_aad_id id
fits lower by_email id r = holds lower r.email id
fits lower by_phone id r = holds exact r.phone id
fits lower by_requester id r = holds exact r.fs_requester_id id
fits lower by_agent id r = holds exact r.fs_agent_id id
fits lower by_person id r = str_eq r.person_id id

unfoldable pub resolve_actor :
    (String → String) → List Identity → Channel → Bool → Option String → Option Identity
resolve_actor lower people channel for_approval none = none
resolve_actor lower people channel for_approval (some id) =
    if str_eq id "" then none else find? (fits lower (column channel for_approval id) id) people
