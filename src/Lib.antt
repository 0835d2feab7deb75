-- ===== src/Lib.antt =====
-- The SaaS job API: an HTTP service that hands scan jobs to gateways and collects their results.
--
-- Parts. Administrators keep tenants, targets and schedules. The scheduler turns due schedules
-- into jobs. A gateway polls for jobs, which reserves them for a time; it acknowledges them, hands
-- in the certificates that it found, or reports that it was interrupted. Heartbeats tell the health
-- of a gateway: one that fell silent is offered nothing, and its jobs are offered to others again.
-- An audit log records what was done. The stores do not know of each other; the routers and the
-- scheduler combine them.
--
-- Files, with the sources in src/saas_job_api/:
--   Jobs, Jobs/Store        domain.py and store_memory.py: the record of a job and the store
--   Jobs/Claim              `claim`: which jobs a poll takes
--   Jobs/Receipts           `acknowledge` and `mark_completed`
--   Jobs/Reissue            `reissue_orphaned` and `reissue_one`
--   Jobs/Lifecycle          sequences of the store's operations, and the diagram of a job's states;
--                           a `reset` deletes the jobs, so most theorems on sequences exclude it
--   Health                  health.py and health_store_memory.py
--   Tenancy                 tenancy.py and the stores of tenants, targets and schedules
--   Inventory               inventory.py and inventory_store_memory.py
--   Audit                   audit.py and audit_store_memory.py
--   GatewayConfig           gateway_operational_config.py and its store in memory
--   Scheduler               orchestrator/scheduler_tick.py
--   Api                     main.py (the stores), auth.py, errors.py
--   Api/Polling, Results, Heartbeat, Targets, Schedules
--                           routers/gateway.py, results.py, heartbeat.py, targets.py, schedules.py
--   Api/Access              the roles and the tenant scope of auth.py
--   Api/Tenants, GatewaySettings, AuditLog, Admin
--                           routers/tenants.py, gateway_config.py, audit.py and admin.py, and the
--                           sweep of audit_retention.py
--   Api/Registration        routers/registration.py
--   Registration, Rbac      identity.py, registration_store_memory.py and rbac_store_memory.py
--   Certificates            the signing of a request in certs.py
--   Api/Login               routers/admin_auth.py
--   Tokens                  jwt_tokens.py and passwords.py; Tokens/Bearer: the authorization header
--                           in auth.py
--   Startup                 main.py: the first administrator
--   Postgres, Postgres/Jobs store_postgres.py: the tables of the job store, its queries and updates,
--                           and its view as a MemoryJobStore
--   Postgres/Schedules, Configs, Registration, Inventory, Audit, Health, Principals, Tenants, Targets
--                           the other *_store_postgres.py; a child View relates each to the store
--                           in memory
--   Prelude, Result, Exec, Time, Dict, Sorting
--                           Python's exceptions, methods, datetimes, dicts, and stable sort
--   Tests                   runs at concrete data
--
-- Correspondence. A store is a record of its attributes, and a method is a function from the store
-- to a result or an exception and the store that is left, also beside an exception. A method holds
-- the store's lock from its first read to its last write, so it is one step; other requests come
-- between the steps, as a sequence of operations. Readings of the clock, random tokens and new ids
-- are arguments. A dict is an association list in insertion order. A datetime knows whether it is
-- aware of a time zone; to compare it with one that is not raises. Durations and times count
-- microseconds in natural numbers. Integers that may be negative (priorities, limits, ports) are
-- signed. Numbers that a validated request bounds from below by zero are natural.
--
-- Every loop is a recursion on the list that it walks, so no fuel is needed.
--
-- PostgreSQL. A table is a dict by its primary key, a query is a function of it, and a
-- transaction is one step. How the driver stores a datetime and how the database orders texts
-- and rows are parameters (Postgres.Driver); the theorems name what they need of them. Widths
-- of columns are left out. Claims of schedules by several instances are a sequence of events over
-- rows with locks (Postgres/Schedules/Locks); a submission of a result is given what others commit
-- between its SELECT and its INSERT (Postgres/Inventory). The unique index on the receipt tokens is
-- checked by each UPDATE of a claim (Postgres/Jobs/Queries), and the theorems on claims assume that
-- the tokens drawn are new (Postgres/Jobs/Index).
--
-- SHA-256 and the package cryptography are parameters of Api/Registration; HMAC, PBKDF2, base64,
-- JSON and the parsing of integers are parameters of Tokens (Tokens.Library), where a text is a
-- list of code points.
--
-- The handlers and the scheduler run on the stores in memory, which start-up makes without a
-- database_url (main.py); there no store fails in the middle of a handler. The handlers on the
-- stores over PostgreSQL, whose transactions are apart from each other, are not modelled as a whole.
--
-- Not modelled: the rest of start-up (main.py, its seed file and its tasks), settings, the pool of
-- connections (db.py), logging, migrations, scripts, and the certificate authority's own keys:
-- input and output, or calls of packages. Other handlers than the login start after
-- authentication, with the gateway's id or the claims of the token as an argument. The certificate
-- of the authority itself is left out of the answer to a registration. A payload holds the values
-- that the program itself puts there.
mod Prelude
pub mod Result
pub mod Exec
pub mod Sorting
pub mod Time
pub mod Tokens
pub mod Dict
pub mod Jobs
pub mod Health
pub mod Tenancy
pub mod Audit
pub mod Inventory
pub mod GatewayConfig
pub mod Registration
pub mod Rbac
pub mod Certificates
pub mod Scheduler
pub mod Api
pub mod Postgres
mod Tests
pub mod Startup
