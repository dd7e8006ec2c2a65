-- ===== src/Lib.antt =====
-- Kohaku, a web server for pages of projects with an admin host: a model of the parts that decide
-- who is let in, how often, what is mailed, which host leads where, and which settings it starts
-- with.
--
-- The parts. A command reads its settings from the environment (src/config.rs) and starts only
-- without a problem. A request is sent by its host to the main router or to a project's
-- (src/routing/build.rs), from a map of hosts that is loaded from the table of projects
-- (src/routing/hosts.rs) after each change to it: the administrator's forms
-- (src/admin/projects.rs), the command line (src/projects/commands.rs), or another process, whose
-- commits a watcher sees. Links to a project with a domain of its own are redirected there
-- (src/projects/redirect.rs). The client's address is found behind trusted proxies
-- (src/limits/client_ip.rs). Requests pass the rate limiter (src/limits/rate.rs), which counts
-- them per network and per class of route; the public forms also pass the mail budget
-- (src/limits/mail_budget.rs) and the limit per address (src/limits/mail_address.rs), which use
-- the same limiter. Mails are rows of the outbox table, written in the caller's transaction, and a
-- worker attempts them one by one (src/mail/outbox.rs); the kinds of mail are those of
-- src/auth/mail.rs, and retention (src/jobs.rs) removes the rows that are done, as it does with
-- sign-in state that has expired. Logins and re-authentications pass one check
-- (src/auth/credentials.rs): the password, then in one transaction the lock, the second factor
-- (src/auth/totp.rs, src/auth/recovery.rs) and the counters, where a lock queues a mail; a success
-- opens a session and may give the browser a device cookie (src/auth/session.rs), which exempts it
-- from the lock that strangers cause. MACs are framed in src/keys.rs. Before a form is read, the
-- origin check (src/http/fetch.rs) turns away the requests that other sites make.
--
-- The files. `Base` has shared helpers: Boolean tests, lists measured by native numbers,
-- association lists and `Dict` for `HashMap`, tables with the statements of SQL that the program
-- uses, `Unique` for UNIQUE columns, `Result`, and the operations on text. `Db` is the database:
-- one record of tables (migrations/). `Characters` is src/text.rs, `Time` the format of times in
-- src/time.rs, with `Gregorian`, a calendar that is counted day by day. `Config` is src/config.rs:
-- `Rule` (the broken rules), `Decimal`, `DnsName`, `BaseUrl`, `Proxies` (`parse_trusted_proxies`),
-- `Values` (the other rules), `Steps` (the steps of `Reader` that read one variable), `Reader`
-- (`serve`, here `read_serve`, `links`, `smtp`, here `smtp_settings`, `transport`, `load`), and
-- under it `Verdicts`, what each variable by itself deserves. `Projects` is src/projects/mod.rs
-- (`create`, `change` for `update`, a name that tables have, `remove` for `delete`), with
-- `Problems`, `Fields` (the parsers, with the checks of migrations/0003_projects.sql in `Checked`)
-- and `Admin` (the handlers of src/admin/projects.rs, `create_command` of src/projects/commands.rs
-- and the watcher's `tick`). `Routing` is `Urls` (src/routing/urls.rs), `Hosts`
-- (src/routing/hosts.rs), `Dispatch` (`Dispatcher::call` of src/routing/build.rs), `Internal`
-- (`tls_ask` of src/routing/internal.rs, by which certificates are asked for), `Table`
-- (src/routing/table.rs), `RateLayer` (`rate_layer` of src/routing/build.rs) and `Redirect`
-- (src/projects/redirect.rs). `Limits` is src/limits/: `Address` (`prefixes`, `mail_source`),
-- `Bucket` (`Budget`, `Bucket`), `Rate` (`Demand`, `Limiter` with `admit_with` and `sweep`),
-- `MailBudget`, `MailAddress`, `ClientIp` (src/limits/client_ip.rs, with `IpNet` and
-- `TrustedProxies` of src/config.rs); `Rate/Trace` puts the calls of a limiter in sequence, as its
-- lock does, `Rate/Answers` lists what they are answered, and `Served` has the calls that the
-- program makes. `Mail` is the outbox: `Kind`
-- (`MailKind`, `KINDS`), `Enqueue`, `Pick`, `Attempt` (`record`, here `record_outcome`, as
-- `record` is a keyword), `GiveUp` (`give_up`, `give_up_expired`, and the outbox step of
-- `retention`), `Retry` (`deadline`, `next_attempt`); `Lifecycle` is the relation of changes that
-- a row may go through, and `Invariant` runs the operations in any order; `Wording` has the text
-- rules of src/mail/mod.rs. `Auth` is src/auth/: `Lockout` (`Account::blocked` and the writes of
-- one failure), `Credentials` (`check`, `decide`, `code_accepted`, `count_failure`), `Totp`,
-- `Recovery`, `Session`, `Reset` (src/auth/reset.rs, src/auth/commands.rs and the transactions of
-- src/admin/reset.rs), `Account` (those of src/admin/login.rs and src/admin/account.rs), `Audit`
-- (src/audit.rs). `Keys` is src/keys.rs, `Jobs` is src/jobs.rs, `Http.Fetch` is src/http/fetch.rs.
--
-- How code corresponds. A transaction is a function from the database to the database; one that
-- fails is `none` or an error, and leaves the database as it was. A statement of SQL is an
-- `update`, `delete` or `find` on the list of rows, a conditional write with the same condition. A
-- form of the administrator is one step, from its transaction to the rebuilding of the map, which
-- may fail; `data_version` is a count of the commits. Texts are lists of bytes where only ASCII
-- matters, and of Unicode scalar values in `Characters`, `Config` and `Projects`, with
-- `utf8_length` where bytes are counted. Times are natural numbers: nanoseconds since the epoch of
-- the monotonic clock in `Limits`, seconds since the Unix epoch elsewhere, so instants before 1970
-- are left out; sums of times are not cut off at 2^63, which no clock reaches. Budgets are divided
-- as the source divides durations, with the remainder dropped. Every function is total by
-- structural recursion; the one loop on a clock, in `Schedule::due`, runs on fuel of the time plus
-- one, more than the periods that fit into it, and `show` on fuel of the number plus one, more
-- than its digits. `attempt_times` of `Mail/Retry/Schedule` is a specification, on fuel for one
-- attempt more than the schedule has. The clock that the database reads by itself (`unixepoch()`) is an argument of
-- the operations that read it.
--
-- Parameters. HMAC-SHA256, HMAC-SHA1, SHA-256 and argon2id's test are arguments, as are the values
-- that the random source draws, the rule for recipients (`validate_recipient` of src/mail/mod.rs),
-- the rule for subjects (in `Enqueue`; its code is modelled in `Wording`), the wording of mails,
-- the standard library's parser of IP addresses, `InstanceSecret::from_base64`, the environment,
-- whether the build is a `dev` build, `HeaderValue`'s conversion to text and its test of a value,
-- whether bytes are UTF-8, whether a rebuilding of the map succeeds, and a request's headers, as
-- the function that lists all values of a name.
--
-- Not modelled. Input and output: SMTP (src/mail/smtp.rs), the HTTP server and its pages, the
-- parsing of the command line, opening, locking, migrating and backing up the database, logging,
-- assets and the development server. Failures of the database itself are left out, since the
-- transaction then rolls back, except in rebuilding the map of hosts. Nor are the routes of a
-- `dev` build, the layers of a route but for the rate layer and the origin check, and the pages of
-- the handlers.
pub mod Base
pub mod Db
pub mod Auth
pub mod Characters
pub mod Config
pub mod Http
pub mod Jobs
pub mod Keys
pub mod Limits
pub mod Mail
pub mod Projects
pub mod Routing
pub mod Time
