-- ===== src/Lib.antt =====
-- The hosting control panel: a panel that runs websites (ui-manager), a billing service, an agent
-- that runs the panel's container commands, and a fencing witness for the pair of servers.
--
-- The panel puts long work into jobs. ui-manager/app/lib/job-manager.js keeps them in a list that is
-- written to jobs.json, runs them so that two jobs with a common conflict key never run together, and
-- shows them without their secrets. Jobs.Job has the state, Jobs.Redact and Jobs.Value what a job may
-- show (boundedText, containsSensitiveKey, safeResult), Jobs.Store persist and prune, Jobs.Queue
-- blockers, schedule and launch, Jobs.Create the constructor, register, start, create and retry, and
-- Jobs.Run update, finish, fail and cancel. Jobs.Step puts them together as the steps of a panel: the
-- microtask, a settled promise and its `finally` are steps of their own. The other modules of Jobs
-- prove things about them.
--
-- The billing service sells renewals by payment links. Billing.Payment has the tables that payments
-- touch, Billing.Ledger the payment operations of billing-service/app/lib/database.js,
-- Billing.Webhook its processWebhook, Billing.Checkout the PaymentManager of
-- billing-service/app/lib/payments.js, and Billing.Dates addMonths and stateForDate. An operation
-- that awaits the shop is two functions, before and after, so that other requests can stand between.
-- Billing.Lifecycle has the operations on the table of payments as steps. Billing.Renewals is the
-- preview of billing-service/app/lib/payment-reconciler.js, which offers the links that are missing.
-- Billing.Inventory has createService, updateService, archiveService and applyManualAction with all
-- the columns of a service; payments and enrollment see the columns that they use.
--
-- The same database keeps the enrollment of websites on shared hosting and the keys that sign
-- entitlements. Billing.Validation is bounded and domain of billing-service/app/lib/validation.js.
-- Billing.Enrollment.Tables has the codes and installations, Billing.Enrollment.Codes
-- createEnrollmentCode, exchangeEnrollmentCode and revokeEnrollmentCode, and
-- Billing.Enrollment.Credentials the revocation, heartbeat and authentication of installations, with
-- the hash of secrets as a parameter; Billing.Enrollment.Step has these calls as steps.
-- Billing.Keys.Ring is the table of signing keys with initSigningKey, rotateSigningKey,
-- retireSigningKey and the choice of keys, and Billing.Keys.Refinement the life of a key id that the
-- table implements.
--
-- The witness lets one server fence the other. Witness.Worker is witness-worker/src/worker.js with
-- protocol.js, Witness.Receipt the check of its receipts in ui-manager/app/lib/fence-receipt.js, and
-- Witness.Platform what both use of the platform, with what they rely on: HMAC, the hexadecimal
-- reading of a buffer and ISO dates.
--
-- The panel keeps credentials that are shown once: Vault.Store is
-- ui-manager/app/lib/one-time-vault.js, with the cipher as a parameter, and Vault.Once what follows
-- for who gets a credential.
--
-- The panel redirects the hosts of suspended services to their renewal page: Enforcement.Plan is
-- buildPlan of ui-manager/app/lib/billing-enforcement.js, with the parser of
-- addresses as a parameter; Enforcement.Grounds and Enforcement.Blocking say which hosts are
-- redirected. Enforcement.Render is renderMap, Enforcement.Transitions transitionRecords, and
-- Enforcement.Apply normalizeSettings, applyPlan, reconcile and disableAll, as functions before and
-- after nginx is asked; its answers are arguments.
--
-- The panel has no access to the containers but through the agent, whose policy
-- (control-agent/app/policy.js) is Agent.Policy with the validators of Agent.Programs and Agent.Php,
-- the paths of Agent.Paths and the literals of Agent.Scripts. A request is refused in one way only,
-- so a validator is a test, and the patterns are tests on code units (Agent.Words).
--
-- Capacity.Summary is computeCapacitySummary of ui-manager/app/lib/php-fpm-capacity.js, the load
-- that the PHP worker pools may put on the host, and Capacity.Health what its report means.
--
-- SiteState.Transaction is applySiteStateTransaction of ui-manager/app/lib/site-state-transaction.js:
-- a change of four files that is activated on the servers or rolled back. Which writes succeed and what
-- the servers answer to which files are arguments, and so is what is rendered for the files. SiteState.Parts and
-- SiteState.Rollback say what is left behind.
--
-- A text is a list of code units, a time a number of milliseconds, a date of the billing service a
-- year, month and day. A number of a request is a natural number; where a request for a payment link
-- or an enrollment code can hold something else, Billing.Checkout.Raw says what. Random ids, clocks and the answers
-- of the shop are arguments. The scheduling loop runs on fuel 2, since a launch never makes
-- another job launchable and a second pass has nothing left to do; the replacement of a pattern in a text runs on the length of the text, since a match takes at least
-- one code unit; the digits of a number n are computed on fuel n + 1.
--
-- Not modelled: the handlers of jobs, the list of jobs and the notifications kept with a job; the
-- contents of orders and the payloads of events; the queries and imports of the billing inventory,
-- the signature on entitlements, reminders and backups; the edit of
-- the nginx configuration, and writes that fail except those of a site's state; the socket, the token and the processes
-- of the agent; the other managers of the panel, which call containers, files and network services;
-- HTTP routing and the browser code.
pub mod Common
pub mod Jobs
pub mod Billing
pub mod Witness
pub mod Vault
pub mod Enforcement
pub mod Capacity
pub mod SiteState
pub mod Agent
