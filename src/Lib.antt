-- ===== src/Lib.antt =====
-- ToolMesh is a gateway between callers (agents) and tool backends. This library models its core:
-- how a tool call is authorized, checked by policies, executed and recorded, and how a caller comes
-- to hold a kit, a bundle of tools granted for a limited time.
--
-- Parts, and how they interact:
--   Executor (internal/executor) runs every call: it asks the authorizer, injects credentials, runs
--   the gate, calls the backend, runs the gate on the result, and records one audit entry. It asks the
--   grant service which kits the caller holds.
--   Gate (internal/gate) is a chain of evaluators; the policies are one of them, and read the rate
--   limiter. A kit that covers the call replaces policies that do not declare enforce-with-kit.
--   Authz (internal/authz) holds the kits, their scopes and parts, the authorizer's interface and the
--   embedded engine, which stores rules as tuples and asks OpenFGA, with the place of the tool and
--   the identity of the caller as tuples of that check alone.
--   Grants (internal/grants) keeps requests and grants, and turns the one into the other.
--   Backend (internal/backend) sends a call to the backend whose name the name of the tool begins with,
--   and lists tools under bare names.
--   Health (internal/health) keeps the results of checks of the backends and reports on them.
--   Throttle (internal/auth/loginthrottle.go) counts failed logins by account and address.
--   Blob (internal/blob) stores files for callers and counts their bytes against a quota.
--
-- Files:
--   Prelude and its children: conditionals and tests, results, lists over the native numbers, Go maps
--     as association lists that hold a key once (Dict), integers (Int), Go's text functions (Text).
--   Base: the records that pass between the parts (internal/userctx/context.go,
--     internal/backend/interface.go, internal/audit/interface.go).
--   Authz/Kit: internal/authz/kits.go (parseKitScope is parse_kit_scope, Kit.Covers is covers,
--     Kit.PartCovers is part_covers, Kit.Part is part), with Validate for validateKits and Parts for
--     what parts cover. Authz/Request: internal/authz/authz.go, with Escape for escapeID.
--   Authz/Tuples: what grants, denies and kits are stored as (Grant.tuples of internal/authz/grants.go
--     is rule_tuples, Kit.tuples of kits.go is kit_tuples). Authz/Model: internal/authz/model.fga, the
--     relations of the model as functions of a list of tuples (can_execute).
--   Authz/Rules: what a set of rules allows, said without tuples (allows), and the tuples of the whole
--     (desired). Caller, Subjects, Objects, Related and Decides lead to the agreement of the two; Validate is
--     Grant.Validate.
--   Authz/Embedded: internal/authz/embedded.go. Check is check, with one function for each group of
--     contextual tuples. Apply is apply (change is its four steps, ended what it leaves), with Sets and
--     Runs about lists and single steps, Safe about what stands in the store on the way, Done about the
--     end, Applied and InSync about what is allowed meanwhile and after. Batch is CheckBatch
--     (check_batch) and equivalenceKey, with Keys for the key, Agree for tools that no rule names,
--     Answers and Tracked for what a batch answers.
--   Gate/Limiter: RateLimiter of internal/gate/context.go (Check is check, Record is record_request).
--     Windows, Agree and History compare it with the history of all requests.
--   Gate/Policies: Gate.Evaluate (evaluate) and evalPolicy (eval_policy) of internal/gate/gate.go.
--     Effects is about one script, Laws about the loop, Kits about what is promised.
--   Gate/ToolRefs: closeMatches and levenshtein of internal/gate/toolrefs.go. Distance compares the
--     table of levenshtein with a recursive edit distance, Close is about what is suggested.
--   Gate/Pipeline: internal/gate/pipeline.go (Pipeline.evaluate is run_evaluators).
--   Executor: the small functions of internal/executor/executor.go; Redaction is sanitizeParams;
--     Remedy is the text for a refused call, of internal/executor/rights.go; Applied is about
--     appliedKit. Pipeline is ExecuteTool, one function for each step, where a function with the
--     suffix reply is what follows an answer; Pipeline/Entry is the audit entry, Pipeline/Reach reads
--     off the checks alone what reaches the backend, Pipeline/Audit and Pipeline/Once are about the
--     entry. Child is CheckChild, Filter is FilterAuthorizedTools.
--   Grants: internal/grants/grants.go. Grants/Store: MemoryStore of internal/grants/store.go, with
--     Expiry, Once and Pending for its promises. Grants/Service: internal/grants/service.go, with
--     Approve for approve, deny and revoke, Approved for what an approval gives, Stored and Kept for
--     how it stays in the store, and Holding for HeldKits; Request for request and ParseTTL, Text for
--     cleanText, truncateRunes and cleanReason, and Requested for what a request leaves behind.
--   Backend/Composite: CompositeBackend of internal/backend/composite.go (longestPrefix is
--     longest_prefix, Execute is execute, LookupTool is lookup_tool), with Longest for the match and
--     Routed for where calls go. Backend/Promoted: PromotedTools and ResolveAlias (promoted_tools,
--     resolve_alias) and internal/backend/reserved.go, with Names for what is promised of the names. A backend is a record of what it answers.
--   Health: internal/health/monitor.go (Monitor.Replace is replace, Observe is observe, Report is
--     report); History says what is kept of a history of results, Reported what a report makes of it.
--   Throttle: the table of counters of internal/auth/loginthrottle.go (localLoginCounters and its
--     methods, with live, acquire, charge, makeRoom as make_room, exhaust and release). Counts says what
--     each operation does to the count of a key, Limit and Refund what an attempt does, Bound what any
--     sequence of attempts does.
--   Blob: internal/blob/quota.go (quotaWriter.Write is write, with write_file for what follows the
--     reservation), and PutOwned and Delete of internal/blob/store.go (put_owned, delete). Counted is
--     about what a blob adds to the counts, Within about the quota; both follow one put at a time.
--     The file system says how much of each chunk is written.
--   The modules named Tests hold small runs and the instances of the theorems.
--
-- How the code is read:
--   Go's mutable values are passed explicitly. A map of parameters and a response that a policy
--   writes to come back in a record Shared; the audit entry may share the live map of parameters,
--   which entry_params says. The state of the gate's evaluators and the list of effects (calls of
--   the backend, audit entries) are the World of an executor.
--   Times and durations are nanoseconds. A clock gives a natural number for each reading; Go's
--   monotonic clock does not run backwards, which the theorems about the limiter take as a hypothesis.
--   The store of grants locks each operation, so calls of several callers are a list of operations in
--   any order. A Go map is walked in no fixed order; the list order of a map stands for any order.
--   All loops are structural recursion; there is no fuel. Lengths and counters do not overflow.
--
-- Parameters, as they are no part of the repository or stand behind an interface: what a JavaScript
-- policy does (Engine), the authorizer's answers, the credential store, the backend, the classes of
-- characters of Go's unicode package (Unicode), time.ParseDuration, the random ids and nonces, and
-- OpenFGA: how it decides from tuples (Engine; a theorem that needs it takes the model's
-- can_execute for it) and whether it accepts a write (Server). Stored tuples are read without an
-- error and no context is canceled while rules are applied; the cache of reads is not modelled, as
-- every apply empties it. A batch check is taken to answer what single checks do where a theorem
-- says so.
--
-- Not modelled: trace ids, times and error texts of audit entries, logs and metrics; the loading of
-- policies and rules from files, and the presets; the checks of approvers; the opening and
-- bootstrap of the embedded engine's store, its health and its cache; the external engine; the
-- audit entries of the grant service; the store in Redis; signed approvals; the reports of
-- AssessTools and KitCoverage; the choice between Redis and process memory in the throttle and its
-- scripts; the removal of expired blobs, uploads and several blobs that are written at once; the
-- backends behind the composite one, DADL, health settings and polling, the MCP server and the
-- commands.
pub mod Health
pub mod Prelude
pub mod Base
pub mod Authz
pub mod Gate
pub mod Executor
pub mod Grants
pub mod Backend
pub mod Blob
pub mod Throttle
