-- ===== src/Governance/Policy.antt =====
-- The policy engine: internal/governance/policy_engine.go, with the part of internal/governance/store.go
-- that reads an enforcement mode. `tables_used` is what `parseTablesUsed` decodes from its column.
use Prim.Native.Nat.{ℕ, zero, suc, ◌+◌, ◌-◌, ◌/◌, ◌%◌}
use mathlib.Core.Bool.{Bool, true, false, not, ◌&&◌, ◌||◌}
use mathlib.Core.Option.{Option, none, some}
use mathlib.Core.List.{List, [], ◌∷◌, ◌++◌}
use ch_ui.Prelude.Tests.{ltb, leb, ◌==◌, if◌then◌else◌}
use ch_ui.Prelude.Lists.{length, any}
use ch_ui.Prelude.Text.{Text, codes, same, is_blank, lower, trim, has_prefix, cut}
use ch_ui.Prelude.Clock.{Stamp}

pub record Policy : Type 0 where
  pub id : Text
  pub name : Text
  pub object_type : Text
  pub object_database : Option Text
  pub object_table : Option Text
  pub object_column : Option Text
  pub required_role : Text
  pub severity : Text
  pub enforcement_mode : Text
  pub enabled : Bool

-- The field of `AccessMatrixEntry` that the engine reads.
pub record AccessMatrixEntry : Type 0 where
  pub role_name : Option Text

pub record QueryLogEntry : Type 0 where
  pub id : Text
  pub user : Text
  pub query_text : Text
  pub tables_used : List Text

pub record PolicyViolation : Type 0 where
  pub id : Text
  pub connection_id : Text
  pub policy_id : Text
  pub query_log_id : Text
  pub user : Text
  pub violation_detail : Text
  pub severity : Text
  pub detection_phase : Text
  pub request_endpoint : Option Text
  pub detected_at : Stamp
  pub created_at : Stamp
  pub policy_name : Text

unfoldable pub deref : Option Text → Text
deref none = []
deref (some s) = s

-- The set of role names as a list.
unfoldable pub collect_user_roles : List AccessMatrixEntry → List Text
collect_user_roles [] = []
collect_user_roles (e ∷ es) =
    let rest = collect_user_roles es in
    elim e.role_name [ none ↦ rest | some r ↦ if is_blank r then rest else lower r ∷ rest ]

unfoldable pub has_role : List Text → Text → Bool
unfolding any
has_role user_roles required_role = any (same (lower required_role)) user_roles

-- One round of the loop of `touchesDatabase`.
unfoldable pub in_database : Text → Text × Option Text → Bool
in_database lower_db (db, none) = false
in_database lower_db (db, some table) = same (lower db) lower_db

unfoldable pub touches_database : List Text → Text → Bool
unfolding any in_database
touches_database tables_used database =
    not (is_blank database) && any (λ t. in_database (lower database) (cut b'.' t)) tables_used

-- One round of the loop of `touchesTable`.
unfoldable pub is_table : Text → Text → Text × Option Text → Bool
is_table lower_db lower_tbl (table, none) = is_blank lower_db && same (lower table) lower_tbl
is_table lower_db lower_tbl (db, some table) =
    same (lower db) lower_db && same (lower table) lower_tbl

unfoldable pub touches_table : List Text → Text → Text → Bool
unfolding any is_table
touches_table tables_used database table =
    not (is_blank table)
    && any (λ t. is_table (lower database) (lower table) (cut b'.' t)) tables_used

unfoldable pub is_ident_char : ℕ → Bool
is_ident_char c =
    (leb b'a' c && leb c b'z')
    || (leb b'A' c && leb c b'Z')
    || (leb b'0' c && leb c b'9')
    || c == b'_'

-- `pos == 0 || !isIdentChar(lower[pos-1])`, from the byte before the position.
unfoldable pub start_ok : Option ℕ → Bool
start_ok none = true
start_ok (some c) = not (is_ident_char c)

-- `endPos >= len(lower) || !isIdentChar(lower[endPos])`, from the text behind the occurrence.
unfoldable pub end_ok : Text → Bool
end_ok [] = true
end_ok (c ∷ s) = not (is_ident_char c)

unfoldable pub drop : ℕ → Text → Text
drop zero s = s
drop (suc n) [] = []
drop (suc n) (c ∷ s) = drop n s

-- The loop of `columnMentioned` over the positions of the text, for a column that is not empty.
unfoldable pub mentioned_from : Option ℕ → Text → Text → Bool
unfolding has_prefix start_ok end_ok drop
mentioned_from prev [] col = false
mentioned_from prev (c ∷ s) col =
    (has_prefix (c ∷ s) col && start_ok prev && end_ok (drop (length col) (c ∷ s)))
    || mentioned_from (some c) s col

unfoldable pub column_mentioned : Text → Text → Bool
unfolding mentioned_from
column_mentioned query_text column = mentioned_from none (lower query_text) (lower column)

unfoldable pub query_touches_object : List Text → Text → Policy → Bool
query_touches_object tables_used query_text policy =
    let object_type = lower policy.object_type in
    let database = deref policy.object_database in
    let table = deref policy.object_table in
    let column = deref policy.object_column in
    if same object_type (codes "database")
    then touches_database tables_used database
    else if same object_type (codes "table")
    then touches_table tables_used database table
    else if same object_type (codes "column")
    then (touches_table tables_used database table
        && not (is_blank column)
        && column_mentioned query_text column)
    else false

unfoldable pub normalize_policy_enforcement_mode : Text → Text
normalize_policy_enforcement_mode v =
    if same (lower (trim v)) (codes "block") then codes "block" else codes "warn"

abbrev hex_digit : ℕ → ℕ
hex_digit n = if ltb n 10 then b'0' + n else b'a' + n - 10

-- The letter behind the backslash for the bytes from 7 to 13.
abbrev escape_letter : ℕ → ℕ
escape_letter c =
    if c == 7
    then b'a'
    else if c == 8
    then b'b'
    else if c == 9
    then b't'
    else if c == 10
    then b'n'
    else if c == 11
    then b'v'
    else if c == 12
    then b'f'
    else b'r'

-- A byte of ASCII as `%q` prints it.
unfoldable pub quote_byte : ℕ → Text
quote_byte c =
    if c == b'"' || c == b'\\'
    then b'\\' ∷ c ∷ []
    else if leb 32 c && ltb c 127
    then c ∷ []
    else if leb 7 c && leb c 13
    then b'\\' ∷ escape_letter c ∷ []
    else b'\\' ∷ b'x' ∷ hex_digit (c / 16) ∷ hex_digit (c % 16) ∷ []

unfoldable pub quote_bytes : Text → Text
unfolding quote_byte
quote_bytes [] = []
quote_bytes (c ∷ s) = quote_byte c ++ quote_bytes s

-- `%q`
unfoldable pub quoted : Text → Text
unfolding quote_bytes
quoted s = b'"' ∷ quote_bytes s ++ b'"' ∷ []

unfoldable pub describe_policy_object : Policy → Text
unfolding quoted deref
describe_policy_object p =
    let object_type = lower p.object_type in
    let db = deref p.object_database in
    let tbl = deref p.object_table in
    let col = deref p.object_column in
    let prefix = if is_blank db then [] else quoted db ++ codes "." in
    if same object_type (codes "database")
    then codes "database " ++ quoted db
    else if same object_type (codes "table")
    then codes "table " ++ prefix ++ quoted tbl
    else if same object_type (codes "column")
    then codes "column " ++ prefix ++ quoted tbl ++ codes "." ++ quoted col
    else p.object_type

-- The conditions of the loop of `EvaluatePolicies`, each of which can end its round.
unfoldable pub is_violated : List Text → QueryLogEntry → Policy → Bool
unfolding query_touches_object has_role normalize_policy_enforcement_mode
is_violated user_roles entry policy =
    policy.enabled
    && not (same (normalize_policy_enforcement_mode policy.enforcement_mode) (codes "block"))
    && query_touches_object entry.tables_used entry.query_text policy
    && not (has_role user_roles policy.required_role)

unfoldable pub violation_of : Text → QueryLogEntry → Stamp → Text → Policy → PolicyViolation
unfolding describe_policy_object quoted
violation_of connection_id entry now new_id policy = record {
  id = new_id;
  connection_id = connection_id;
  policy_id = policy.id;
  query_log_id = entry.id;
  user = entry.user;
  violation_detail =
      codes "User "
      ++ quoted entry.user
      ++ codes " executed a query touching "
      ++ describe_policy_object policy
      ++ codes " without required role "
      ++ quoted policy.required_role;
  severity = policy.severity;
  detection_phase = [];
  request_endpoint = none;
  detected_at = now;
  created_at = now;
  policy_name = policy.name;
}

-- The loop of `EvaluatePolicies`; `new_id n` is the n-th identifier that `uuid.New` gives.
unfoldable pub violations_from :
    Text → QueryLogEntry → Stamp → (ℕ → Text) → List Text → ℕ → List Policy → List PolicyViolation
unfolding is_violated violation_of
violations_from connection_id entry now new_id user_roles n [] = []
violations_from connection_id entry now new_id user_roles n (policy ∷ policies) =
    let found = violations_from connection_id entry now new_id user_roles (n + 1) policies in
    let passed = violations_from connection_id entry now new_id user_roles n policies in
    if is_violated user_roles entry policy
    then violation_of connection_id entry now (new_id n) policy ∷ found
    else passed

-- `matrix` is what `GetAccessMatrixForUser` returns for the user, `none` an error.
unfoldable pub evaluate_policies :
    Text
    → QueryLogEntry
    → List Policy
    → Option (List AccessMatrixEntry)
    → Stamp
    → (ℕ → Text)
    → List PolicyViolation
unfolding violations_from collect_user_roles
evaluate_policies connection_id entry policies none now new_id = []
evaluate_policies connection_id entry policies (some matrix) now new_id =
    violations_from connection_id entry now new_id (collect_user_roles matrix) 0 policies
