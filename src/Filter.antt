-- ===== src/Filter.antt =====
-- The filter language of src/domain/filter.rs: the fields of each view, the tokenizer, the parser
-- and the evaluation on devices and on administrative records.
pub mod Tokens
pub mod Scans
pub mod Spans
pub mod Agreement
pub mod Reading
pub mod Schema
pub mod Views
pub mod Durations
pub mod Decimals
pub mod Reads
pub mod Terms
pub mod Parser
pub mod Positions
pub mod Errors
pub mod Quoting
pub mod Evaluation
pub mod Administration
pub mod Clock
pub mod Records
pub mod Lengths
pub mod QuotedTerms
