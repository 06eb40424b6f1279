-- ===== src/Memory.antt =====
-- engine/contextrail/memory.py: expiring pointers from a thread of a door to runs.
pub mod Bounded
use contextrail.Prelude.{
  ℕ, zero, suc, ◌+◌, ltb, leb, min, Bool, true, false, not, ◌&&◌, ◌||◌, String, Option, none, some,
  List, [], ◌∷◌, filter, length, ◌==◌, str_eq, if◌then◌else◌, decimal, ◌&◌,
}

-- A row of conversation_memory; times are seconds.
pub record Entry : Type 0 where
  pub id : ℕ
  pub channel : String
  pub person_id : String
  pub thread_key : String
  pub role : String
  pub summary : String
  pub run_id : String
  pub audit_seqs : List ℕ
  pub expires_at : ℕ

-- The rows, the highest id first, which is the order of insertion within a scope.
pub record Memory : Type 0 where
  pub next_id : ℕ
  pub rows : List Entry

pub record Scope : Type 0 where
  pub channel : String
  pub person_id : String
  pub thread_key : String

abbrev pub max_entries : ℕ
max_entries = 20

abbrev pub retention : ℕ
retention = 2592000

abbrev pub in_scope : Scope → Entry → Bool
in_scope s e =
    str_eq e.channel s.channel && str_eq e.person_id s.person_id && str_eq e.thread_key s.thread_key

abbrev pub is_live : ℕ → Entry → Bool
is_live now e = ltb now e.expires_at

abbrev pub next_count : ℕ → ℕ
next_count zero = zero
next_count (suc n) = n

-- What is left when the rows of a scope beyond the first n are deleted.
unfoldable pub trim : Scope → ℕ → List Entry → List Entry
trim s n [] = []
trim s n (e ∷ es) =
    let less = trim s (next_count n) es in
    let rest = trim s n es in
    if in_scope s e then (if leb 1 n then e ∷ less else rest) else e ∷ rest

-- `hash` is the hex digest of sha256; `none` is ValueError.
unfoldable pub thread_key : (String → String) → String → Option String
thread_key hash thread_ref = if str_eq thread_ref "" then none else some (hash thread_ref)

abbrev cut : ℕ → String → String
cut zero s = ""
cut (suc n) String.[] = ""
cut (suc n) (String.◌∷◌ c s) = String.◌∷◌ c (cut n s)

-- `clean` makes the three substitutions of regular expressions.
unfoldable pub redact_summary : (String → String) → String → String
redact_summary clean value = cut 512 (clean value)

-- What a door hands in.
pub record Note : Type 0 where
  pub channel : String
  pub person_id : String
  pub thread_ref : String
  pub role : String
  pub summary : String
  pub run_id : Option String
  pub audit_seqs : List ℕ

abbrev pub entry_of : (String → String) → ℕ → ℕ → Note → String → String → Entry
entry_of clean now id n key run = record {
  id = id;
  channel = n.channel;
  person_id = n.person_id;
  thread_key = key;
  role = n.role;
  summary = redact_summary clean n.summary;
  run_id = run;
  audit_seqs = n.audit_seqs;
  expires_at = now + retention;
}

abbrev pub scope_of : Note → String → Scope
scope_of n key = record { channel = n.channel; person_id = n.person_id; thread_key = key }

abbrev pub store : (String → String) → ℕ → Note → String → String → Memory → Memory
store clean now n key run m = record {
  next_id = suc m.next_id;
  rows =
      trim (scope_of n key) max_entries
        (entry_of clean now m.next_id n key run ∷ filter (is_live now) m.rows);
}

abbrev pub with_key :
    (String → String) → ℕ → Note → Option String → Option String → Memory → Option Memory
with_key clean now n none run m = none
with_key clean now n (some key) none m = none
with_key clean now n (some key) (some run) m = some (store clean now n key run m)

-- `ConversationMemory.append`; `none` is ValueError.
unfoldable pub append : (String → String) → (String → String) → ℕ → Note → Memory → Option Memory
append hash clean now n m =
    if not (str_eq n.role "user" || str_eq n.role "assistant") || str_eq n.person_id ""
    then none
    else with_key clean now n (thread_key hash n.thread_ref) n.run_id m

abbrev take : ℕ → List Entry → List Entry
take zero es = []
take (suc n) [] = []
take (suc n) (e ∷ es) = e ∷ take n es

abbrev add_last : Entry → List Entry → List Entry
add_last e [] = e ∷ []
add_last e (x ∷ xs) = x ∷ add_last e xs

abbrev reversed : List Entry → List Entry
reversed [] = []
reversed (e ∷ es) = add_last e (reversed es)

abbrev clamp : ℕ → ℕ
clamp limit = if leb 1 (min limit max_entries) then min limit max_entries else 1

abbrev recent_of : ℕ → String → String → Option String → ℕ → Memory → Option (List Entry)
recent_of now channel person_id none limit m = none
recent_of now channel person_id (some key) limit m = some (
    reversed (
      take (clamp limit) (
        filter
          (λ e.
            in_scope (record { channel = channel; person_id = person_id; thread_key = key }) e
            && is_live now e)
          m.rows)))

-- `ConversationMemory.recent`; `none` is ValueError.
unfoldable pub recent :
    (String → String) → ℕ → String → String → String → ℕ → Memory → Option (List Entry)
recent hash now channel person_id thread_ref limit m =
    if str_eq person_id ""
    then some []
    else recent_of now channel person_id (thread_key hash thread_ref) limit m

abbrev forget_of : String → String → Option String → Memory → Option (ℕ × Memory)
forget_of channel person_id none m = none
forget_of channel person_id (some key) m =
    let s : Scope = record { channel = channel; person_id = person_id; thread_key = key } in
    some (
      length (filter (in_scope s) m.rows),
      record m { rows = filter (λ e. not (in_scope s e)) m.rows },
    )

-- `ConversationMemory.forget`
unfoldable pub forget : (String → String) → String → String → String → Memory → Option (ℕ × Memory)
forget hash channel person_id thread_ref m =
    if str_eq person_id ""
    then some (0, m)
    else forget_of channel person_id (thread_key hash thread_ref) m
