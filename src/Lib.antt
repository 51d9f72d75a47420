-- ===== src/Lib.antt =====
-- A model of the core of diana-qq-bot, a QQ bot in Go (OneBot in, an LLM agent, OneBot out), and
-- the theorems on it.
--
-- Messages arrive over OneBot, enter a durable queue in SQLite, and are claimed by workers, a session
-- at a time; replies to groups go out through a guard that retries, backs off and gives up.
--
-- Event: the events and their text (model/qqbot/types.go, onebot.go, and sessionKey in runtime.go).
-- InboundQueue: model/storage/inbound_queue.go. Table holds the two tables, Enqueue is
--   EnqueueInboundEvent with stableInboundEventID, Lease is ClaimNextInboundEvent, CompleteInboundEvent,
--   RetryInboundEvent, ReleaseInboundLeases, PendingInboundCount and the restore of stale rows in
--   sqlite_store.go's migration. A transaction is one function on the store; an SQL WHERE is a Boolean
--   test, an ORDER BY a Boolean comparison. History runs any sequence of these calls.
-- Worker: the workers of model/qqbot/inbound_queue.go on the store of InboundQueue. Round is one round of
--   runInboundWorker's inner loop, from the claim to the commit: `round_among` with whatever other calls
--   do to the store in between, `worker_round` with none in between. Delay is the delay of a retry and the
--   staleness, Coordinator the loop of runInboundCoordinator over what its select yields. What answering
--   an event comes to is a parameter; the worker's own waiting for a clock and a channel is not
--   modelled, nor is what a backfill fetches.
-- Reminder: the delay of model/qqbot/reminder_retry.go.
-- Outbound: model/qqbot/group_send_guard.go. Policy is the retry policy and backoffDelay, Groups the
--   blocked groups and the errors, Gate executeOutboundCall: `turn` is one round of its loop, `deliver`
--   the loop, `execute` the whole call. ignoreUnavailableGroupEvent reads the blocks under one lock and
--   lifts one under another: `ignore_event` has the blocks at each of the two as an argument.
-- ContextBudget: model/llm/context_budget.go. Messages holds the estimates, Trim the cuts with their
--   binary search, Fit the selection under a budget, Limit the budget of a request from its
--   configuration (with model/llm/types.go).
-- PassiveBatch: model/qqbot/passive_batch.go, Batch holds the operations on the entry of one session in
--   the map of batches, Sessions those on the map by the events' session keys, Decision which candidates
--   a decision sees, Runs any sequence of operations on an entry.
--   Of flushPassiveReplyBatch only the head is modelled; its routing and its reply are the runtime's.
-- Llm: the calls of a language model. Config is ProviderConfig with its defaults (model/llm/types.go,
--   models.go), Profiles the profile set (model/llm/profiles.go), Errors what an error leads to
--   (model/qqbot/runtime.go), Retry, Timeout and Failover the attempts on one profile, their timeout and
--   the change of profile (model/qqbot/llm_retry.go). A script gives the provider's answers and the
--   context's errors; lower case is exact only as far as an ASCII word can tell.
-- Suppression: model/qqbot/reply_suppression.go, with truncateRunesFromStart, normalizeReply and
--   mentionedUserIDs of runtime.go. State holds the maps and the rows of the store, Intent the control
--   tokens, Active the suppressions, Hits the refusals and the replies of other bots, AfterSend what a
--   sent reply leads to, Owner the commands; History runs any sequence of calls. The gate that lets one
--   reply of a user out at a time is a lock, and its calls are single steps here. The classification of
--   a message by a model, the notices and the log entries are not modelled; a confidence is given by its
--   comparisons with 0.90 and 1 and by its two decimals.
-- GroupReply: model/qqbot/group_reply_policy.go, the minimum level of the members that a group's
--   configuration asks for; GetGroupMemberInfo is a parameter. Relationship: model/qqbot/relationship.go,
--   the tiers and what they grant.
-- Netguard: model/netguard/public_http.go, and in Domain model/qqbot/url_security.go. Address is what it
--   uses of net/netip and its test of an address, Reserved the reserved IPv4 addresses as intervals,
--   Guard the check of a URL and the guarded connection. The parsing of URLs and addresses, the
--   resolver, the plain dialer and the network are parameters, and whether the environment allows
--   private fetches is an argument.
--
-- Numbers: int64 is ℤ, over the native ℕ, whose products and sums wrap where the source's could; times
-- are Unix nanoseconds in ℕ; sums of token estimates are not bounded. Text is a list of code points.
--
-- Loops: `deliver` recurs on the list of the rounds' readings (clock, context, network); a list that
-- ends too early gives no reply, and Outbound.Termination shows how many rounds suffice. The binary
-- search of ContextBudget.Trim has one more unit of fuel than the text has code points, as
-- each step at least halves the interval of at most that many lengths. The attempts of Llm.Retry, the
-- profiles of Llm.Failover and the doublings of the delays recur on how many are left, as the source
-- counts them; the digits of a number have one unit of fuel more than its value.
--
-- Parameters: whether SQLite carries out a statement; the SHA-256 of an event without a message id;
-- the answers of the network, of the models and the clock; what uuid.NewString gives. JSON encodings of
-- rows are taken to be lossless.
--
-- Not modelled: the web interface, the HTTP and WebSocket transport, the plugins' I/O, the browser, the
-- updater, and, so far, the agent's tool loop and the memory.
pub mod Prelude
pub mod Event
pub mod InboundQueue
pub mod Outbound
pub mod ContextBudget
pub mod PassiveBatch
pub mod Llm
pub mod Suppression
pub mod Netguard
pub mod Worker
pub mod GroupReply
pub mod Relationship
pub mod Reminder
