-- ===== src/Lib.antt =====
-- pgiceberg publishes the changes that a PostgreSQL transaction makes to Iceberg tables. This
-- library models the part of it that decides what is published, and what happens when a
-- transaction or a server fails around that: the engine's queue of pending changes, the commit at
-- PRE_COMMIT, the recovery log, the repair of what a failure left, and the worker that copies a
-- PostgreSQL table through logical decoding. It also models how a table is bound to the schema of
-- Iceberg, how values are converted, and the filter that a scan of a table is given.
--
-- The parts, and how they interact. An executor of src/engine/modify_state.cc queues a change on
-- a pending table (Modify/Queue), which replays it into an Iceberg transaction (Modify/Apply). A
-- savepoint that is rolled back takes its changes out of the queue (Modify/Callbacks). At
-- PRE_COMMIT the tables are registered in a recovery record, the record is written to a log, and
-- the tables are published in turn, with the log written after each (Modify/Commit,
-- Modify/Recovered). At COMMIT the log is removed; at ABORT what was published is rolled back
-- (Recovery/Rollback). After a crash, the SQL functions reconcile and repair the logs
-- (Recovery/Repair).
--
-- * Status models src/common/status.h, Options models src/engine/options.cc and options.h.
-- * Recovery models src/engine/commit_recovery.cc and commit_recovery.h: Format is FormatRecord,
--   Stream and Parse are ParseRecord over the reads of std::istream, Log is the store of log files,
--   Ownership is InspectSnapshotOwnership, TableVerdict and OverallVerdict, Rollback is
--   RollbackIcebergSnapshot and BestEffortRollbackCommittedTables, Repair is RepairCommit and
--   ReconcileCommitRecoveryLogs, Json is CommitRecoveryRecordJson.
-- * Modify models the queue and the callbacks of src/engine/modify_state.cc (lines up to 810):
--   Identity is the commit id, the properties and the table key, the other modules are named above.
--   The two statics of a backend are the record Backend.
-- * Pushdown models src/fdw/qual_pushdown.cc, which makes a filter for Iceberg of the WHERE
--   clause: Comparison is the operators and the test of collations, Like is StartsWithPrefix,
--   Literal is DecimalLiteralFromNumeric, Timestamp is TimestampLiteral, Constants is
--   LiteralForConst, and Walk is the rest: Nodes is StripRelabel, AsScanColumn and ResolveColumn,
--   Comparisons is TranslateComparison and TranslateOpExpr, Quals is TranslateScalarArrayOp to
--   TranslateQualsForPushdown. What the catalogs of PostgreSQL and the Iceberg schema answer is the
--   record Planner, and a node that the source does not look into is one constructor. Meaning says
--   what the clauses and the expressions mean of a row, with a table of PostgreSQL's operators and
--   the collations under which it compares bytes of its own; it stands for PostgreSQL and Iceberg
--   and is not code of this repository. The other modules of Pushdown are proofs: Keys, Renders,
--   Compared, Patterns, Operands, Clauses, Elements, Arrays, Truths and Sound lead to the filter as
--   a whole, and Scanned joins it to what Convert reads.
-- * Convert is src/common/datum_convert.cc: Units has the arithmetic of times and dates, Read is
--   ConvertValue, Write is ScalarFromDatum, AppendDatum and DatumEquals. Floats have a type that
--   the definitions take, and what is called in Arrow and PostgreSQL is the record Library. Exact,
--   Ranges and Typed are proofs.
-- * Logical models src/logical/logical.cc, which copies the inserts of a PostgreSQL table to an
--   Iceberg table from a slot of logical decoding: Output is the output plugin
--   (PgIcebergOutputChange and PgIcebergOutputTruncate), Decode is ParseDecodedChange, Slot has the
--   mirrors, LoadMirrors, PeekSlotChanges, AdvanceSlotByCount, UpdateMirrorProgress and
--   DisableMirror, BatchId is LogicalBatchId, Batch and Mirror are ProcessMirror, ProcessMirrors,
--   DrainNonSourceSlotChanges and a turn of RunWorkerLoop, Backfill is EnsureEmptyBackfillTarget
--   and BackfillSourceTable. A World is the slot, the mirror's row and the engine's state; the
--   record External has what the SPI statements, the hash, the types and the engine answer. The
--   engine's functions (AppendSlots, FlushPendingModifyChanges, ReadTableProperty, and its callback
--   of an aborted transaction) are arguments there: a theorem says what they are called with, and
--   assumes nothing of what they do but what its statement names. The other modules of Logical are
--   proofs: Reads, Columns and RoundTrip of the record format, BatchNames of the name of a batch,
--   Drain, Consumed, Appended, Left, Turns and Delivered of turns, Copies of the backfill.
-- * Schema is src/common/type_mapping.cc, src/common/schema_binding.cc and a part of
--   src/functions/schema.cc. Types has DecodeNumericTypmod, PostgresTypeToIcebergType and
--   IcebergTypeToSql; Relations has TypesMatch, IsWideningPromotion, IcebergTypeReadableAs and
--   PostgresTypeWritableAs; Columns has the field ids of columns up to LoadLocalColumns; Binding is
--   BindSchema, Diff is DiffSchema, Checks is CheckScanCompatible and CheckWriteCompatible, Json is
--   SchemaChangesToJson. Bindings is LoadTableAmFieldIds and InsertColumnBindings, Projection is
--   ProjectedIcebergNames and BatchColumnIndex, Refresh is RefreshForeignTable of
--   src/functions/schema.cc. A literal of the library is a type that the definitions take;
--   format_type_be, FindFieldById and what SPI answers are functions that they take. The other
--   modules of Schema are proofs: Numeric of types, InSync, Matched and Synced of the difference,
--   Compatible of both checks, Found, Stale and Refreshed of what a refresh does, FieldIds and
--   Inserted of the rows that are written.
-- * Outside is what is called and not implemented here: the status of transactions in PostgreSQL,
--   the file system, the catalog, the Iceberg library. It is a record of functions that every
--   definition takes. Each call that changes something outside adds an event to a history, and what
--   a later call answers may depend on the history, so a failure at any point is covered. The load
--   of a table that is to be rolled back is a function of its own beside the load of its
--   inspection, since another writer may come between the two. Nothing is assumed of these
--   functions but what a theorem names.
-- * Exec is a function that changes state and may fail, with the state kept on failure.
-- * Common has the lists, the integers, bytes and decimal numerals; Tests has concrete runs.
--
-- Strings are lists of bytes. An int64_t is an integer; where the source reads one, the range is
-- checked as the source's reads do. The loops of the source are structural recursion on their
-- lists; the printing of numbers is recursion on fuel: one more than the number for decimals,
-- which have no more digits than that, and sixteen for the hexadecimal digits of a 64-bit number.
-- The drain of a slot has fuel for one round more than the slot has changes, which is enough
-- because a round that goes on consumes one change at least and nothing is added to the slot of
-- the model meanwhile; the loop of the source has no bound.
--
-- Not modelled: other transactions that add to a slot during a turn, the executor half of
-- modify_state.cc (writing Parquet files and deletion vectors), scans, the literals of column
-- defaults, the handling of arguments and locks around a refresh, the table access method, the
-- signal handlers, settings and registration of the logical worker, the registration of settings,
-- the callbacks of the foreign data wrapper, warnings and log sinks, and the steps by which a log
-- file is written durably, which are one call that succeeds or fails.
pub mod Common
pub mod Status
pub mod Options
pub mod Exec
pub mod Outside
pub mod Recovery
pub mod Modify
pub mod Pushdown
pub mod Logical
pub mod Schema
pub mod Convert
mod Tests
