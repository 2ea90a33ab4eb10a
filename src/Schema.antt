-- ===== src/Schema.antt =====
-- Changes of the schema: the statements and the handlers of internal/server/handlers/query.go
-- and query_upload.go.
pub mod Names
pub mod Statements
pub mod CreateTable
pub mod Scan
pub mod ScanLaws
pub mod FragmentLaws
pub mod Yields
pub mod PieceLaws
pub mod TableLaws
pub mod BuildLaws
pub mod Handlers
pub mod HandlerLaws
pub mod StatementLaws
mod Examples
