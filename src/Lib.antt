-- ===== src/Lib.antt =====
-- Tale: the core logic of a terminal interface for Tailscale.
--
-- The program shows a tailnet and changes it. An action (src/action.rs) names what a user may ask for.
-- A change of this machine is a local mutation (src/domain/mutation.rs), one of the tailnet an
-- administrative mutation (src/domain/admin_mutation.rs), and an edit of the access policy a workflow
-- (src/domain/policy_workflow.rs). Each runs as a task of the task store (src/task.rs), whose details
-- are cut to a bound (src/detail.rs); the reducer of tasks (src/app/task_reducer.rs) frees the locks of
-- what it cancels. What is shown comes from sources (src/domain/source.rs), whose devices are composed
-- (src/domain/device.rs), filtered and searched (src/domain/filter.rs) and exported
-- (src/domain/export.rs).
--
-- The files:
--   Prelude            Boolean tests, lists, texts as code points, maps as association lists.
--   Detail             src/detail.rs; its cuts are bounded in Detail/Bounds.
--   Action             src/action.rs: identifiers (Id), names (Names), kinds (Kinds), parsing (Parsing).
--   Matching           the searches of src/domain/filter.rs; Substrings and Fuzzy say what they find.
--   Task               src/task.rs: Store, Lifecycle, Eviction and Selection are its methods; Invariant,
--                      Growth, Evicting, Selecting, History the invariant over all calls; Edges, Fates
--                      and Evolution what becomes of one task; Results the answers of the methods.
--   Preference         the requests of src/domain/preference.rs.
--   Route              src/domain/route.rs: networks and requests; Masks, Containment, Overlap,
--                      Order and Canonical.
--   LocalMutation      src/domain/mutation.rs: Lifecycle and Lock.
--   AdminMutation      src/domain/admin_mutation.rs: Change, Messages, Lifecycle, Preflight, Locks with
--                      Holding, Exclusion and Deletion, Batch.
--   PolicyWorkflow     src/domain/policy_workflow.rs: Documents, Steps, Guard, Invariant, Applying.
--   Source             src/domain/source.rs: what is known of one source of data over its requests;
--                      Refinement, Invariant and Generations.
--   Filter             the language of src/domain/filter.rs: Schema, Views, Tokens, Durations, Terms,
--                      Parser, and Evaluation and Administration over records. Scans, Spans, Agreement
--                      and Reading are about tokens, Reads about durations, Decimals about numbers,
--                      Positions, Lengths and Errors about the places errors name, Quoting and
--                      QuotedTerms about quoted values, Clock about the terms that need the time,
--                      Records about two kinds of records.
--   Device             the devices of src/domain/device.rs, local and administrative: Composition with
--                      Counting and Correspondence, and their Order with Ranks and Sorting.
--   Export             the CSV of src/domain/export.rs: Rows, Fields, Csv; Validity of its tables,
--                      Reading, a reader of CSV, and Table.
--   Diagnostic         the observations of src/domain/diagnostic.rs, as src/app/local_reducer.rs keeps them.
--   TaskReducer        src/app/task_reducer.rs, over tasks, diagnostics, batches and locks; Cancelling and
--                      History.
--   Examples           concrete runs.
--
-- Numbers are ℕ; where the program saturates at the largest u64, the definitions do. A method that
-- takes `&mut self` is a function that returns the changed value, with its result beside it. A mutex
-- makes each method of a lock one step, and a run is any sequence of such steps. A slice of a text at a
-- byte that is no boundary of characters panics in the program and is `none` here. All recursion is
-- structural; the text of a number stops at twenty digits, as many as the largest u64 has (Filter/Decimals).
-- Parameters: the lower-case mapping of Unicode, the redactor of
-- secrets, the SHA-256 of documents, the UUID of a new record, the JSON text of a list, and the functions
-- of the time library that parse and print times.
--
-- Not modelled: the asynchronous runtime, the other reducers and the screens, the clients of the
-- control plane and of the local daemon, configuration and database, which are input and output or call
-- third-party libraries for their work; the filters of served mappings, the JSON of
-- exports, and most of the other domain types.
mod Prelude
pub mod Detail
pub mod Action
pub mod Matching
pub mod Task
pub mod Device
pub mod Preference
pub mod Filter
pub mod Export
pub mod Route
pub mod Source
pub mod LocalMutation
pub mod AdminMutation
pub mod PolicyWorkflow
pub mod Diagnostic
pub mod TaskReducer
pub mod Examples
