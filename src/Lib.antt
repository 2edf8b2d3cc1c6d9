-- ===== src/Lib.antt =====
-- crashcart is a Sentry-compatible crash tracker: one Go binary over Postgres. SDKs send envelopes,
-- which internal/ingest writes in one transaction; a worker (internal/jobs) runs deferred jobs from
-- a queue in the database; schedulers check cron monitors and alerts.
--
-- Base holds what the modules share: Boolean tests, lists over the native numbers, tables as lists
-- of rows (Base/Rows), wrapping signed integers (Base/Int), Go strings as byte lists (Base/Text)
-- and their runes (Base/Runes).
--
-- Monitors models internal/monitors, internal/store/monitors.go, internal/alerts/monitors.go and the
-- check-ins of internal/ingest/ingest.go: State is Record (state.go), Schedule is ParseSchedule and Next
-- (schedule.go), Rows the statements, Receive a check-in against its monitor, Check is CheckMonitors,
-- over Slots, the loop of monitorMissed. Units proves what intervals come to. Thresholds is about whole histories of outcomes, Runs, Accepted
-- and Missed about the rows, the stored schedules and the missed slots.
--
-- Jobs models internal/jobs/worker.go and internal/store/jobs.go: Table has a function for each
-- statement on the jobs alone, FanOut EnqueueSymbolicateRelease, which reads the events (over Ingest),
-- Worker has RunOnce and dispatch over what the world does job by job, Backoff the delays. Sound,
-- Claim, Enqueue, Release and Queue carry the table's invariant through the statements that change
-- it; Lease, Order, Settle and Retry prove what workers rely on.
--
-- Issues models internal/store/issues.go: Table has the row and each statement that changes it
-- (UpsertIssue, SetIssueStatus, SetIssuesStatus, UnignoreDue, EscalateIssue, AdjustIssueStoredCount,
-- DeleteEmptyIssue), with the database's text order as a parameter; Releases the arrays of releases,
-- Sound and Statements the invariant, Regression, Totals and Ignored what histories come to.
--
-- Sentry models internal/sentry. Id is id.go, over Hex (Go's encoding/hex), Platform is platform.go.
-- Of envelope.go, Frame and Event are the stored data, Json the documents as decoded and the record
-- of the functions that the parser calls outside (Library), Clean the bounds on texts, Times the
-- timestamps, Sanitize and Parse are ParseEvent, Reports the user reports, client reports, check-ins
-- and monitor configurations, Sessions parseSessions, Envelope the loop of Parse and the switch on
-- the type of an item; Framing, Limits and Stored prove what they keep. Of analyze.go, Kind is
-- FrameKind and Culprit, Images the debug images, Signature the Fingerprint and the title; Grouping
-- proves what the fingerprint does not depend on.
--
-- Auth models internal/auth: Limiter is bump and RateLimit of auth.go, Window what they enforce over
-- a history of requests, Request the addresses, keys and origins that auth.go and access.go read
-- from a request, Access the API keys and sessions of access.go over the accounts of Store.
--
-- Symbolicate models internal/symbolicate/sourcemap.go: Vlq is decodeVLQs on int64 bit patterns,
-- RoundTrip the Source Map encoding and its decoding, SourceMap is ParseSourceMap on a parsed JSON
-- document, Search Go's sort.Search, Lookup is Resolve and the order of mappings, Scan the search
-- against a scan, Files is SourceMapSet and ResolveAll. ProGuard is proguard.go, Inlined what it
-- makes of one frame.
--
-- Blob models internal/blob: Memory is checkKey and the in-process store.
--
-- Ingest models internal/ingest: Redact and Scrub are pii.go, with the matches of Go's regexp as
-- parameters. Of Ingest in ingest.go, Prepare is the analysis of the events (over Sentry), Write the
-- resends, the sampling and the folding by fingerprint, Commit the rows, the issues (over Issues), the
-- jobs and the result; Extras the statements on releases, sessions, attachments and user reports,
-- Counts the one on client reports, Whole the transaction around them and the check-in of Monitors.
-- Accounting, Inserted, Resend, Twice and Rollback prove what it keeps, what a resend does and what fails it.
--
-- Store models internal/store/cursor.go in Cursor, over a record of what the time package does, and
-- the users, sessions and API keys of internal/store/auth.go in Accounts.
--
-- SQL statements that stand in the Go code are functions on lists of rows: UPDATE and DELETE as
-- maps and filters, a unique index as the conflict target of an insert. One clock serves a
-- statement's now() and the caller's time.Now(). Integers of the source that cannot be negative or
-- wrap where they are used (ids, counts, times after an epoch) are natural numbers; int32 counters
-- and durations are integers with their wrap-around.
--
-- Loops recur on their lists; the missed-slot loop recurs on its rounds, which the source bounds at
-- 10000, and has a theorem that enough rounds end on the right slot. The loop over the items of an
-- envelope recurs on a number of rounds, the length of its text, and has a theorem that this is enough.
--
-- Not modelled: HTTP and JSON plumbing, HTML, the dSYM sidecar (processes and files), S3, SQL
-- aggregation for charts, and what third-party packages do, which enters as parameters (the
-- crontab parser, encoding/json, regexp, SHA-256, gzip, time texts, Go's conversions of a float64,
-- the database's text order).
pub mod Base
pub mod Auth
pub mod Blob
pub mod Ingest
pub mod Issues
pub mod Jobs
pub mod Monitors
pub mod Sentry
pub mod Store
pub mod Symbolicate
