-- ===== src/Export.antt =====
-- Exported rows, src/domain/export.rs: what a document holds, when it is valid, and its CSV text. The
-- time library's view of a Unix time is two parameters, `has_time` and `format`, its reading of a
-- timestamp's text a third, `is_utc_text`; `serialize` is the JSON text of a list of strings.
pub mod Rows
pub mod Fields
pub mod Validity
pub mod Csv
pub mod Reading
pub mod Table
