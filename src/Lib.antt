-- ===== src/Lib.antt =====
-- Kick-Channel-Role: a service that gives Discord roles by the relation of a viewer to a Kick
-- channel. An administrator saves a rule for a role; the service keeps the facts about viewers in
-- Postgres, evaluates the rules on them, and passes the result on to RoleLogic. Work is queued in
-- a table of jobs.
--
-- Prelude (and its children) holds what the files share: tests and integers over the native
-- numbers, results, lists and texts. Json is serde_json's value; a text is the list of its code
-- points.
--
--   Rule         src/models: condition.rs, rule.rs, facts.rs. WellTyped says when a condition's value
--                suits its target and operator, Keys treats the keys of targets and operators.
--   Relation     the rows that a viewer's facts are read from (migrations 003 and 004, and FactsRow of
--                src/services/sync.rs).
--   Eval         src/services/condition_eval.rs: `evaluate` decides for one member.
--   Validator    src/services/rule_validator.rs: `parse_rule_tree` checks a rule before it is saved.
--   AppError     src/error.rs, with the validator's messages as constructors.
--   RuleSql      src/services/rule_sql.rs: `build_rule_where` gives the clause of the bulk query. A
--                clause is a tree whose text is given by Render; Semantics says what Postgres makes of
--                it, with NULLs, type errors and refused patterns, and Like what LIKE matches.
--   FollowSync   src/services/follow_sync.rs: what one answer of the follow probe does to a stored
--                relation. History is the relation of the rows that probes may lead to.
--                Players is the run over all the channels of a viewer, and Pointwise what
--                it comes to for each row.
--   Jobs         src/services/jobs.rs: every statement on the table of jobs. Worker is
--                src/tasks/job_worker.rs, a worker's round, and Settled what a round leaves in
--                progress; Locks has the steps of the queue.
--   Sync         src/services/sync.rs: `sync_for_role_link` brings the users of a role in line with
--                its rule, and `sync_for_channel` enqueues this for a channel's links. Outcomes has
--                what may happen, Mirror the second run, Grants the users that are uploaded.
--                Players is one member's turn in `sync_for_player`, Roles what it brings about, and Agree
--                compares it with the sync of the link.
--   Database     the tables that events write, and statements of SQL that run one by one and may fail.
--   Identity     src/routes/webhooks.rs, `note_identities`: the names of channels and viewers.
--   Webhook      src/routes/webhooks.rs. Apply is `apply_event`, with Chat for the chat's badges;
--                Delivery is the handler `kick_webhook`, with its signing key and its record of
--                deliveries. Evolves says how an event may change the tables, Once and Retry treat
--                a delivery that comes again.
--   RoleLogic    src/services/rolelogic.rs: the client of RoleLogic. Upload has its calls, Trace the
--                requests of an upload, Errors what stands behind an error, and Links the sync of a
--                link on this client.
--   ApiKey       src/services/api_key.rs and src/routes/api_keys.rs: the keys of the machine API;
--                Steps and Revoked treat any operations on them in a row.
--   IframeSession, RlToken
--                src/services/rl_token.rs: the token of the configuration page, and the one of
--                RoleLogic that it is made from. Bytes is the comparison in constant time.
--   CookieSession, Csrf
--                src/services/session.rs and src/services/csrf.rs: the session cookie and the origin.
--   UsersApi     src/routes/api_v1.rs: the listing of a guild's linked members; Order is the order of
--                identifiers, and Pages the walk along the cursors.
--   Examples     runs of the above on concrete data.
--
-- How they meet: the validator's result is what the evaluator and the query read (RuleSql.Saved); a
-- probe writes the rows that both read (FollowSync.Facts); the worker's round acts on the queue by
-- the queue's operations, and reads back what the helpers enqueue (Jobs.Settled, Jobs.Rounds); the
-- sync runs the bulk query on the stored rows and uploads what it finds (Sync.Grants); an event
-- writes the same rows, and leaves the counters of the probe alone (Webhook.Events).
--
-- Correspondence: a function keeps its name, a loop is a function on the list that the loop walks,
-- and a `match` with guards is a function by clauses. An `i64`, and a `DateTime` in microseconds,
-- is an integer; where the source depends on the range (parsing, saturating casts and counters) the
-- range is written out. The attempts of a job are natural numbers, and the run of a probe over the
-- channels reads the clock once. A statement of SQL is a function on the rows. Parameters stand for
-- what is not in the repository: the regex crate, Postgres' operator `~` (which may also refuse a
-- pattern) and equality of JSON, the text of a JSON number, the cast of a float, the order of
-- texts, the reader of a stored rule, the clock, the jitter, the JSON parser, the reader of RFC
-- 3339 dates, the check of a signature, the hash of a token, HMAC and base64, the limiter of
-- requests, and the check of a manager; and so do the answers of RoleLogic, of the authentication
-- gateway and of Kick. No definition runs on fuel, but for the printing of a number in Render,
-- whose fuel is the number's successor: more than its digits, and for the walk in UsersApi.Pages,
-- which is given the number of requests: as many as there are users to list are enough.
--
-- In Database each statement may fail by a list of faults, which stands for a lost connection, a
-- foreign key that is missing, and whatever else Postgres refuses; only INTEGER columns that leave
-- their range and the unique index on the slugs are checked by the model itself.
--
-- Not modelled: failures of the database outside of webhooks, requests of webhooks and on keys that
-- run at the same time, the seeding of baseline rows and the concurrency of `sync_for_player`, the
-- other HTTP handlers, HTML, the clients of Kick and of the authentication gateway, the minting of
-- tokens, encryption, timers and start-up.
pub mod Prelude
pub mod Json
pub mod Rule
pub mod Relation
pub mod Eval
pub mod AppError
pub mod Validator
pub mod RuleSql
pub mod FollowSync
pub mod Jobs
pub mod Sync
pub mod Database
pub mod Identity
pub mod Webhook
pub mod RoleLogic
pub mod ApiKey
pub mod IframeSession
pub mod RlToken
pub mod Csrf
pub mod CookieSession
pub mod UsersApi
pub mod Examples
