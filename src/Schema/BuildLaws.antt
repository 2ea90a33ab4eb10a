-- ===== src/Schema/BuildLaws.antt =====
-- The whole of buildCreateTableSQL (internal/server/handlers/query_upload.go).
use mathlib.Core.Path.{◌≡◌, refl}
use mathlib.Core.Logic.{◌≢◌}
use mathlib.Core.Bool.{Bool, true, false}
use mathlib.Core.List.{[], ◌∷◌}
use ch_ui.Prelude.Lists.{All}
use ch_ui.Prelude.Text.{Text, codes, trim}
use ch_ui.Prelude.Result.{Result, ◌>>◌, refuse_if}
use ch_ui.Schema.Names.{
  Refusal, backslash, validate_simple_object_name, is_unsafe_sql_fragment, is_system_database_name,
  no_columns, system_database, invalid_engine, invalid_cluster,
}
use ch_ui.Schema.Scan.{is_mark}
use ch_ui.Schema.ScanLaws.{IsPiece, ◌⊕◌, NoBackslash}
use ch_ui.Schema.FragmentLaws.{NoMarks}
use ch_ui.Schema.Statements.{or_unset, invalid_fragment, or_else}
use ch_ui.Schema.CreateTable.{
  CreateTableRequest, columns_sql, expressions, check_expressions, no_column,
  build_create_table_sql,
}
use ch_ui.Schema.Yields.{Yields, Yields-then, Yields-unless, Yields-bind, All-trim}
use ch_ui.Schema.TableLaws.{
  PlainColumn, SafeExpressions, columns_sql-IsPiece, options_text-IsPiece, table_text-IsPiece,
}

-- A request whose names hold no backslash and whose engine, types and expressions hold no mark; its
-- comments are any texts.
pub record PlainRequest (req : CreateTableRequest) : Type 0 where
  pub database : NoBackslash req.database
  pub name : NoBackslash req.name
  pub on_cluster : NoBackslash req.on_cluster
  pub engine : NoMarks req.engine
  pub columns : All PlainColumn req.columns
  pub order_by : NoMarks req.order_by
  pub partition_by : NoMarks req.partition_by
  pub primary_key : NoMarks req.primary_key
  pub sample_by : NoMarks req.sample_by
  pub ttl : NoMarks req.ttl
  pub settings : NoMarks req.settings

abbrev AllFalse : Bool → Bool → Bool → Bool → Bool → Bool → Type 0
AllFalse a b c d e f =
    (a ≡ false) × (b ≡ false) × (c ≡ false) × (d ≡ false) × (e ≡ false) × (f ≡ false)

-- A chain of six guards goes on if none of them refuses.
Yields-chain {ℓ} :
    (P : Text → Type ℓ) (a b c d e f : Bool) (ea eb ec ed ee ef : Refusal) (k : Result Refusal Text)
    → (AllFalse a b c d e f → Yields P k)
    → Yields P (
        (refuse_if a ea
          >> (refuse_if b eb
              >> (refuse_if c ec >> (refuse_if d ed >> (refuse_if e ee >> refuse_if f ef)))))
        >> k)
Yields-chain P true b c d e f ea eb ec ed ee ef k h = tt
Yields-chain P false true c d e f ea eb ec ed ee ef k h = tt
Yields-chain P false false true d e f ea eb ec ed ee ef k h = tt
Yields-chain P false false false true e f ea eb ec ed ee ef k h = tt
Yields-chain P false false false false true f ea eb ec ed ee ef k h = tt
Yields-chain P false false false false false true ea eb ec ed ee ef k h = tt
Yields-chain P false false false false false false ea eb ec ed ee ef k h =
    h (refl, refl, refl, refl, refl, refl)

Yields-checked :
    (req : CreateTableRequest) (k : Result Refusal Text)
    → PlainRequest req
    → (SafeExpressions (expressions req) → Yields IsPiece k)
    → Yields IsPiece (check_expressions (expressions req) >> k)
unfolding check_expressions
Yields-checked req k p h =
    Yields-chain IsPiece _ _ _ _ _ _ _ _ _ _ _ _ k
      (λ (v : AllFalse (invalid_fragment (trim req.order_by))
          (invalid_fragment (trim req.partition_by)) (invalid_fragment (trim req.primary_key))
          (invalid_fragment (trim req.sample_by)) (invalid_fragment (trim req.ttl))
          (invalid_fragment (trim req.settings))).
        h (record {
          order_by = (v.0, plain_trim req.order_by p.order_by);
          partition_by = (v.1, plain_trim req.partition_by p.partition_by);
          primary_key = (v.2, plain_trim req.primary_key p.primary_key);
          sample_by = (v.3, plain_trim req.sample_by p.sample_by);
          ttl = (v.4, plain_trim req.ttl p.ttl);
          settings = (v.5, plain_trim req.settings p.settings);
        }))
  where
    plain_trim : (s : Text) → NoMarks s → NoMarks (trim s)
    plain_trim s q = All-trim (λ c. is_mark c ≡ false) s q

pub or_else-NoMarks :
    (value fallback : Text) → NoMarks value → NoMarks fallback → NoMarks (or_else value fallback)
or_else-NoMarks [] fallback h k = k
or_else-NoMarks (c ∷ value) fallback h k = h

merge_tree-NoMarks : NoMarks (codes "MergeTree")
unfolding is_mark
merge_tree-NoMarks = (refl, (refl, (refl, (refl, (refl, (refl, (refl, (refl, (refl, tt)))))))))

pub build-IsPiece :
    (req : CreateTableRequest) → PlainRequest req → Yields IsPiece (build_create_table_sql req)
unfolding build_create_table_sql
build-IsPiece req p =
    let database = trim req.database in
    let name = trim req.name in
    let cluster = trim req.on_cluster in
    let engine = or_else (trim req.engine) (codes "MergeTree") in
    Yields-then IsPiece (validate_simple_object_name database (codes "database")) _ (
      Yields-then IsPiece (validate_simple_object_name name (codes "table")) _ (
        Yields-unless IsPiece (is_system_database_name database) system_database _ (λ user.
          Yields-unless IsPiece (no_column req.columns) no_columns _ (λ some_column.
            Yields-unless IsPiece (is_unsafe_sql_fragment engine) invalid_engine _ (λ safe.
              Yields-unless IsPiece (invalid_fragment cluster) invalid_cluster _ (λ valid.
                Yields-bind (All IsPiece) IsPiece (columns_sql 1 req.columns) _
                  (columns_sql-IsPiece 1 req.columns p.columns)
                  (λ columns parts. Yields-checked req _ p (λ checked.
                    table_text-IsPiece (or_unset req.if_not_exists) database name cluster columns
                      (All-trim (λ c. c ≢ backslash) req.database p.database)
                      (All-trim (λ c. c ≢ backslash) req.name p.name)
                      (All-trim (λ c. c ≢ backslash) req.on_cluster p.on_cluster) parts
                    ⊕ options_text-IsPiece engine (expressions req) (trim req.comment) safe
                        (or_else-NoMarks (trim req.engine) (codes "MergeTree")
                          (All-trim (λ c. is_mark c ≡ false) req.engine p.engine)
                          merge_tree-NoMarks)
                        checked))))))))
