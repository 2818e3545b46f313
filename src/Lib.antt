-- ===== src/Lib.antt =====
-- WhatsApp OS: a shop's back office on WhatsApp. Next.js actions call services; a service checks the
-- caller's permission, runs a transaction against the repositories, and leaves slow or risky work to
-- a queue of jobs. This library models the decisions that money, stock, access and delivery depend on.
--
-- Parts, and the code that each is about:
--   Prelude     helpers: integers, results of code that throws, tables of rows
--   Authz       server/authz/permissions.ts: roles, permissions, who outranks whom
--   Members     server/domain/member-rules.ts: changing roles, removing, leaving, seats, invites
--   Money       lib/money.ts: amounts in minor units
--   Totals      server/domain/order-totals.ts: `computeOrderTotals`, in stages
--   Pricing     server/services/product/pricing.ts: `resolvePrice`
--   Inventory   server/repositories/inventory.repository.ts: stock rows and the statements on them
--   Orders      server/services/order/order.service.ts with server/repositories/order.repository.ts:
--               `updateOrder`, `updateOrderStatus`, `cancelOrder`; Orders.Status is the transition
--               table of server/validation/order.ts, Orders.Service has the three functions, and
--               Orders.Figures is the pricing step of `createOrder`
--   Jobs        server/repositories/job.repository.ts, with Jobs.Housekeeping for what looks after
--               the queue; Jobs.Queue is server/jobs/drivers/postgres-queue.ts and Jobs.Backoff is
--               server/jobs/backoff.ts
--   RateLimit   server/ratelimit/window.ts, server/ratelimit/limiter.ts and
--               server/repositories/rate-limit.repository.ts
--   Sending     server/services/whatsapp/meta-failure.ts and send-failure.ts
--   Messages    server/repositories/message.repository.ts; Messages.Channel has what a dispatch touches
--               of conversation.repository.ts and whatsapp-account.repository.ts
--   Dispatch    server/services/whatsapp: Dispatch.Outbound is outbound.service.ts with
--               `processStatusUpdate` of inbound.service.ts, Dispatch.Outcome is dispatch-outcome.ts
--   Approvals   server/services/approval/approval.service.ts with
--               server/repositories/approval.repository.ts; Approvals.Perform is what an execution does
--               to the shop, Approvals.Execute decides and writes down
--   Plans       config/plans.ts; Plans.Subscription is server/services/subscription with
--               server/repositories/subscription.repository.ts, Plans.Quota is
--               server/services/billing/limit-guard.service.ts and Plans.Team what `getTeam` of
--               server/services/member/member.service.ts counts
--   Csv         lib/csv.ts; Csv.Parser is a reader to compare it with
--   Phone       lib/phone.ts but maskPhone, of texts that are trimmed; Phone.Rules is on its countries,
--               Phone.Spellings on the ways to write a number
--   Knowledge   server/services/knowledge/chunker.ts: Knowledge.Boundary is where a text may be cut,
--               Knowledge.Cuts the ladder of separators, Knowledge.Chunker the walk and the pieces
--   Automation  server/services/automation/automation-engine.service.ts with the runs of
--               server/repositories/automation.repository.ts: Automation.Triggers matches events,
--               Automation.Actions is `executeSingleAction`, Automation.Engine the runs and their waits
--   Inbound     server/services/whatsapp/inbound.service.ts: Inbound.Contacts and Inbound.Conversations find
--               or add the customer and the conversation, with contact.repository.ts and
--               conversation.repository.ts, Inbound.Receive is `processInboundMessage`; Inbound.Webhook is
--               webhook-processor.service.ts on the stored events of Inbound.Events, what a payload says
--               being a field of the event
-- Orders uses Authz for the permission, Inventory for the stock of its items and Totals for its money;
-- Totals and Pricing use Money; Members uses Authz. Dispatch moves Messages, counts in RateLimit and
-- judges a failed send by Sending; Approvals asks Authz for the permission and calls Orders; Plans
-- asks Authz too, and its guard on seats is compared with the members' page. Inbound normalises by Phone, adds to
-- Messages and hands delivery reports to Dispatch.
--
-- How code corresponds to definitions:
--   A name in camelCase is the same name in snake_case. A table is a list of its rows; `updateMany` is
--   a function over the rows with the count it returns, `findFirst` the first row that a test finds.
--   Ids are numbers, and a row's id is taken to be its own. Times are milliseconds since the epoch,
--   passed as arguments. A transaction is a function from a database to an outcome with a database; one
--   that throws leaves the database as it was. Statements that run at the same time are taken in the
--   order in which the database commits them, each on the rows that the one before it left: a guard
--   in a `where` is tested on the row that is written. Orders' functions read and write in one such step.
--   Code that throws returns an error of a type of its own. A dispatch has no transaction: it is a
--   function from a world to a result with a world, and what was written before a throw stays. What
--   the provider answers and which writes the database refuses are arguments of it; attempts for a
--   message run one after another, as the queue gives a job to one worker at a time. A decision on an
--   approval is likewise no transaction, and which entries of the audit log are refused is an argument;
--   Approvals.Overlap has two of them between whose reading and writing another acts.
--   A run of an automation has no transaction either: which actions throw, and what they have written
--   by then, is an argument. So it is with an inbound message: which statements are refused, and what
--   throws after the message was processed, are arguments. The JSON of triggers, actions and events is the fields that are read.
--
-- Numbers: amounts are exact integers with the safe range that `money` checks; a share whose product
-- is beyond that range, and a contained tax, are computed as doubles are. Counts and quantities
-- are natural numbers, as the columns hold them; a priority may be negative. A delay whose growth
-- overflows a double is the ceiling in the source, as it is here. The jitter is a number of
-- millionths.
--
-- Recursion is structural everywhere, except that the search for a transport code keeps the source's
-- depth of five, and that the walk over a document has as many rounds as it has code units and one
-- more: it advances by one at least in each, as is proved. No function here runs out of a bound that
-- the source does not have. Which code points are marks and which are white space is a parameter.
--
-- Not modelled: creating an order but for its pricing, order numbers, the loop of the worker, the parser
-- of webhook payloads, two attempts at one message that overlap, two
-- webhooks that are processed at once, the automations that a message triggers, the agent and its tools,
-- the scan for idle conversations, the editing of automations, the ingestion of documents, checkout and
-- the billing webhook, the lifecycle of a workspace; `canAcceptInvite`;
-- texts for display; telemetry, audit and notification rows; the retry of
-- `ensureStockRow` after a lost race, which needs two transactions; rows that a concurrent claim has
-- locked; taking an address out of headers. Schemas of the validation library, JSON payloads and the
-- printing of numbers and months are parameters where needed.
pub mod Prelude
pub mod Authz
pub mod Members
pub mod Money
pub mod Totals
pub mod Pricing
pub mod Inventory
pub mod Orders
pub mod Jobs
pub mod RateLimit
pub mod Sending
pub mod Messages
pub mod Dispatch
pub mod Approvals
pub mod Plans
pub mod Csv
pub mod Phone
pub mod Knowledge
pub mod Automation
pub mod Inbound
