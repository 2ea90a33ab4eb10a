-- ===== src/Schema/Examples.antt =====
-- Tests and witnesses for changes of the schema.
use mathlib.Core.Path.{◌≡◌, refl}
use mathlib.Core.Bool.{false}
use mathlib.Core.Option.{none, some}
use mathlib.Core.List.{[], ◌∷◌}
use mathlib.Core.Logic.{◌⊎◌}
use native.Mathlib.Omega.{arith}
use ch_ui.Prelude.Text.{Text, codes, same}
use ch_ui.Prelude.Result.{ok}
use ch_ui.Middleware.Roles.{SessionInfo}
use ch_ui.Schema.Names.{escape_identifier, escape_literal}
use ch_ui.Schema.Scan.{read, plain, is_mark, IsOneStatement}
use ch_ui.Schema.Statements.{DropTableRequest}
use ch_ui.Schema.CreateTable.{CreateTableColumn, CreateTableRequest}
use ch_ui.Schema.TableLaws.{PlainColumn}
use ch_ui.Schema.BuildLaws.{PlainRequest}
use ch_ui.Schema.StatementLaws.{statement-IsOneStatement}
use ch_ui.Schema.Handlers.{Server, create_table, drop_table, statement, change_schema}
use ch_ui.Schema.HandlerLaws.{Refused, Sent, change_schema-Sent}

abbrev day : CreateTableColumn
day = record {
  name = codes "day";
  type = codes " Date ";
  default_expression = codes "today()";
  comment = codes "it's";
}

abbrev visits : CreateTableRequest
visits = record {
  database = codes "web";
  name = codes "visits";
  engine = [];
  on_cluster = [];
  if_not_exists = none;
  columns = day ∷ [];
  order_by = [];
  partition_by = codes "day";
  primary_key = [];
  sample_by = [];
  ttl = [];
  settings = [];
  comment = [];
}

abbrev visits_text : Text
visits_text =
    codes
      "CREATE TABLE IF NOT EXISTS `web`.`visits` (\n  `day` Date DEFAULT today() COMMENT 'it''s'\n)\nENGINE = MergeTree\nPARTITION BY day\nORDER BY tuple()"

visits-statement : statement (create_table visits) ≡ ok visits_text
unfolding statement escape_identifier escape_literal
visits-statement = refl

day_plain : PlainColumn day
unfolding is_mark
day_plain = record {
  name = omega arith;
  type = (refl, (refl, (refl, (refl, (refl, (refl, tt))))));
  default_expression = (refl, (refl, (refl, (refl, (refl, (refl, (refl, tt)))))));
}

visits_plain : PlainRequest visits
unfolding is_mark
visits_plain = record {
  database = omega arith;
  name = omega arith;
  on_cluster = tt;
  engine = tt;
  columns = (day_plain, tt);
  order_by = tt;
  partition_by = (refl, (refl, (refl, tt)));
  primary_key = tt;
  sample_by = tt;
  ttl = tt;
  settings = tt;
}

statement-IsOneStatement_example : IsOneStatement visits_text
statement-IsOneStatement_example =
    statement-IsOneStatement (create_table visits) visits_text visits_plain visits-statement

abbrev dropped : DropTableRequest
dropped = record {
  database = codes "d\\";
  name = codes ";x";
  on_cluster = [];
  if_exists = some false;
  sync = false;
}

abbrev dropped_text : Text
dropped_text = codes "DROP TABLE `d\\`.`;x`"

-- A backslash at the end of a name escapes the quote behind it, and the next name is read as a part
-- of the statement.
dropped-statement : statement (drop_table dropped) ≡ ok dropped_text
unfolding statement escape_identifier
dropped-statement = refl

dropped_reads : read (plain 0) dropped_text ≡ none
unfolding read
dropped_reads = refl

-- So does a single quote in the type of a column.
abbrev loose : CreateTableRequest
loose = record visits {
  columns =
      record day { type = codes "Date `"; default_expression = []; comment = [] }
      ∷ record day { name = codes ";x"; default_expression = []; comment = [] }
      ∷ [];
  partition_by = [];
}

loose_reads : (sql : Text) × (statement (create_table loose) ≡ ok sql) × (read (plain 0) sql ≡ none)
unfolding statement escape_identifier escape_literal read
loose_reads = (
  codes
      "CREATE TABLE IF NOT EXISTS `web`.`visits` (\n  `day` Date `,\n  `;x` Date\n)\nENGINE = MergeTree\nORDER BY tuple()",
  refl,
  refl,
)

-- The guard lets through what is a comment to ClickHouse.
abbrev commented : CreateTableRequest
commented = record visits { columns = record day { type = codes "Date #" } ∷ [] }

commented_reads :
    (sql : Text) × (statement (create_table commented) ≡ ok sql) × (read (plain 0) sql ≡ none)
unfolding statement escape_identifier escape_literal read
commented_reads = (
  codes
      "CREATE TABLE IF NOT EXISTS `web`.`visits` (\n  `day` Date # DEFAULT today() COMMENT 'it''s'\n)\nENGINE = MergeTree\nPARTITION BY day\nORDER BY tuple()",
  refl,
  refl,
)

abbrev server : Server
server = record {
  is_user_role = λ user role. some (same user (codes "ann"));
  decrypt = λ sealed. some (codes "pw");
  execute_query = λ connection sql user password. none;
}

abbrev ann : SessionInfo
ann = record {
  id = codes "s1";
  connection_id = codes "c1";
  clickhouse_user = codes "ann";
  encrypted_password = codes "sealed";
  user_role = codes "admin";
}

change_schema-Sent_example :
    Refused (change_schema server (codes "10.0.0.1") (some ann) (some (create_table visits)))
    ⊎ Sent server
        (codes "10.0.0.1")
        (some ann)
        (some (create_table visits))
        (change_schema server (codes "10.0.0.1") (some ann) (some (create_table visits)))
change_schema-Sent_example =
    change_schema-Sent server (codes "10.0.0.1") (some ann) (some (create_table visits))

status_of_visits :
    (change_schema server (codes "10.0.0.1") (some ann) (some (create_table visits))).0 ≡ 201
unfolding change_schema same
status_of_visits = refl

-- No table is dropped in a system database.
status_of_system :
    (change_schema server
      (codes "10.0.0.1")
      (some ann)
      (some (drop_table (record dropped { database = codes " System " })))).0
    ≡ 400
unfolding change_schema same
status_of_system = refl
