-- ===== src/Lib.antt =====
-- A model of vai, a version control for agents, and what it keeps.
--
-- The parts of the program that are modelled, and where:
--   src/merge/mod.rs (Merge): the three-way merge of one file by lines, level 1 of `try_merge_file`.
--     Merge/Lcs has `lcs_indices`, Merge/Hunks has `compute_hunks`, `hunks_overlap` and the line loop of
--     `apply_two_hunk_sets`, Merge/Text has the bytes around them: `split_lines`, the newline at the end,
--     and the case of one side without hunks. A slice whose range is out of order is `none`, a panic.
--   src/conflict/mod.rs (Conflict): the footprints of the workspaces, `classify_overlap`, and
--     `ConflictEngine` (Conflict/Engine), a map from workspace ids to footprints.
--   src/issue/mod.rs (Issue): the tables of issues, links and rate limits, and the event log. Issue/Store
--     has `create`, `set_in_progress`, `reopen`, `resolve`, `close` and `count_open`, Issue/Update has
--     `update`, Issue/RateLimit has `create_by_agent`, Issue/Similar has the search for duplicates,
--     Issue/Labels the column of labels, Issue/Discussion the comments and the dependencies (tables of their
--     own here). Issue/Lifecycle has the state table that the operations implement.
--   src/merge_patterns/mod.rs (Patterns): the classes of conflicts, and `MergePatternStore`
--     (Patterns/Store), which decides from past resolutions when a conflict is resolved by itself.
--   src/watcher/mod.rs (Watcher): watchers and their policies, the tables (Watcher/Store), and
--     `submit_discovery` (Watcher/Submit), which suppresses repeated problems, limits the rate, and creates
--     issues by `create_by_agent` of the issue store; Watcher/Prepare has `prepare_discovery`, the
--     first phase of the submission whose issue the server creates.
--   src/escalation/mod.rs (Escalation): `create`, `get`, `resolve` and `count_pending` of the table
--     (Escalation/Store), whose names carry the component's here, and the default options.
--   src/work_queue/mod.rs (WorkQueue): `compute`, which splits the open issues by the footprints of the
--     conflict engine, and `claim` (WorkQueue/Claim), which moves an issue of the issue store.
--   src/event_log/mod.rs (EventLog): the event kinds, and `EventLog` (EventLog/Store) over the bytes of the
--     segment files and the rows of the index; EventLog/Lines has the reads of lines and EventLog/Store/Chunks
--     the layout of a log that the proofs go by. The issue store appends the same events to a plain list,
--     which is the abstract log of EventLog/Store/History.
--   src/version/mod.rs (Version): the numbering of versions, Version/Changes with the changes that the event
--     log says of a version and `get_versions_diff`, Version/Changes/Impact with `analyze_rollback_impact`,
--     Version/Rollback with `rollback` over the trees of the files.
--   src/workspace/mod.rs (Workspace): the directories of the workspaces with their meta.toml, the file that names
--     the active one, and the events of creation and discard; Workspace/Runs has sequences of operations.
--   src/graph/mod.rs (Graph): the tables of entities and relationships, with `remove_file` and `update_file`
--     (Graph/Update), over the result of the parser, and the search of `reachable_entities` (Graph/Reach);
--     Graph/Reach/Walks has the walks that the search is compared with, Graph/Queries the queries that only read.
--   src/diff/mod.rs (Diff): `compute_with_fs` with the changes of entities in a file, over the files that the
--     trait MergeFs of src/merge_fs.rs gives, and `record_events` (Diff/Record), which writes the events of a diff
--     and moves a workspace from created to active.
--   src/storage/pagination.rs and src/server/pagination.rs (Pagination): the window of a page and the count
--     of pages, with the width of its cast, the sort parameter (Pagination/Sorting) and the
--     ORDER BY clause (Pagination/OrderBy).
-- Common has what they share: Boolean tests on numbers, decimal texts of 64-bit numbers, lists measured by
-- the native numbers, checked slices, the stable sort by a key, sets of texts, tables with a key, and code
-- that may panic.
--
-- How state is modelled: a database table is a list of rows in the order of their insertion, an operation
-- takes the tables and returns them with its result, and a statement of SQL is taken to succeed. The clock
-- and fresh identifiers are arguments; ids and times are numbers. Counters of rows are unbounded, where the
-- program has 32 or 64 bits. A ratio that is compared with a constant is compared by cross-multiplication. The
-- Unicode tables, the hash function, the texts of fractions and the JSON codec are parameters.
-- Every loop goes along a list, but for the `while` loop of `reachable_entities`, which takes fuel: a round for
-- each seed and two for each relationship, as every round takes an id from the queue that is queued once.
--
-- What is not modelled: levels 2 and 3 of the merge, which need a parser; the submission of a workspace; the
-- file system, SQL and HTTP around the components; the parsers of the semantic graph, whose results are
-- arguments or parameters; the prediction of scopes, which is a parameter of the work queue; the overlay
-- files; authentication, remote synchronisation, the server, the command line and the dashboard; of the
-- issue store the filtered listing; of the watchers the listings. The records of conflicts and of
-- discoveries hold what the modelled code reads.
pub mod Common
pub mod Merge
pub mod Conflict
pub mod Issue
pub mod Patterns
pub mod Watcher
pub mod Escalation
pub mod WorkQueue
pub mod Pagination
pub mod EventLog
pub mod Version
pub mod Graph
pub mod Workspace
pub mod Diff
