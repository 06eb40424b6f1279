-- ===== src/Connectors/Entitlements.antt =====
-- `FixtureEntitlements` of engine/contextrail/connectors/fixture.py.
use contextrail.Prelude.{
  Bool, true, false, not, ◌||◌, String, Option, none, some, List, [], ◌∷◌, str_eq, contains, get_or,
  if◌then◌else◌,
}
use contextrail.Models.Value.{Value, str, bool, Fields, end, field, lookup}
use contextrail.Models.Action.{Action}
use contextrail.Connectors.Base.{permanent, Answer, ok, raised, WriteResult, Connector}
use contextrail.Connectors.Fixture.{Doc, find, apply}

-- who holds what, by subject, and the names of the catalogue
pub record Holdings : Type 0 where
  pub catalog : List String
  pub holdings : List (String × List String)

-- a part of the target that is there and not empty, as `_need` asks; the rail writes texts only
abbrev needed : Option Value → Option String
needed (some (str s)) = if str_eq s "" then none else some s
needed _ = none

abbrev pub held_by : Holdings → String → List String
held_by h subject = get_or (find subject h.holdings) []

-- held.remove(ent): the first occurrence
abbrev pub drop_first : String → List String → List String
drop_first e [] = []
drop_first e (x ∷ xs) = let rest = drop_first e xs in if str_eq x e then xs else x ∷ rest

abbrev pub add_last : String → List String → List String
add_last e [] = e ∷ []
add_last e (x ∷ xs) = x ∷ add_last e xs

-- doc["holdings"][subject] = held
abbrev put : String → List String → List (String × List String) → List (String × List String)
put s held [] = (s, held) ∷ []
put s held ((k, v) ∷ d) =
    let rest = put s held d in if str_eq k s then (k, held) ∷ d else (k, v) ∷ rest

abbrev new_held : Bool → String → List String → List String
new_held true ent held = if contains ent held then held else add_last ent held
new_held false ent held = drop_first ent held

-- the inner `apply`, for a grant or a revocation; `none` is the unknown entitlement
unfoldable pub change : Bool → String → String → Holdings → Option Holdings
change is_grant subject ent h =
    if not (contains ent h.catalog)
    then none
    else some
        (record h { holdings = put subject (new_held is_grant ent (held_by h subject)) h.holdings })

abbrev is_grant_kind : Action → Bool
is_grant_kind a = str_eq a.kind "grant"

abbrev ref_of : String → String → Fields
ref_of subject ent = field "subject_id" (str subject) (field "entitlement" (str ent) end)

abbrev write_known :
    Action
    → String
    → Option String
    → Option String
    → Doc Holdings
    → Answer WriteResult × Doc Holdings
write_known a key none ent doc = (raised permanent, doc)
write_known a key (some subject) none doc = (raised permanent, doc)
write_known a key (some subject) (some ent) doc =
    if is_grant_kind a || str_eq a.kind "revoke"
    then apply (change (is_grant_kind a) subject ent) ent key (ref_of subject ent) doc
    else (raised permanent, doc)

-- ConnectorError for a target that lacks a part, for another kind and for an unknown entitlement
unfoldable pub write : Action → String → Doc Holdings → Answer WriteResult × Doc Holdings
write a key doc =
    write_known a key (needed (lookup "subject_id" a.target))
      (needed (lookup "entitlement" a.target)) doc

abbrev present : Doc Holdings → String → String → Bool
present doc subject ent = contains ent (held_by doc.content subject)

abbrev observed : String → String → Bool → Fields
observed subject ent there =
    field "subject_id" (str subject)
      (field "entitlement" (str ent) (field "present" (bool there) end))

abbrev verify_known : Action → Option String → Option String → Doc Holdings → Answer (Bool × Fields)
verify_known a none ent doc = raised permanent
verify_known a (some subject) none doc = raised permanent
verify_known a (some subject) (some ent) doc =
    let there = present doc subject ent in
    ok (if is_grant_kind a then there else not there, observed subject ent there)

unfoldable pub verify : Action → Doc Holdings → Answer (Bool × Fields) × Doc Holdings
verify a doc = (
  verify_known a (needed (lookup "subject_id" a.target)) (needed (lookup "entitlement" a.target))
      doc,
  doc,
)

abbrev pub entitlements : Connector (Doc Holdings)
entitlements = record { write = write; verify = verify }
