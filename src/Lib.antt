-- ===== src/Lib.antt =====
-- The operator backend of the Canton DEX reference implementation
-- (services/operator-backend/src): the checks on a request, the sessions, the decimals, the order
-- matching and the pool pricing, and the order and quote services that submit to the ledger.
--
-- Paths below are under services/operator-backend/src. The services read contract views (Types),
-- compute what a request means and submit commands to a ledger. Amounts are decimal texts on
-- every interface; they become bigints scaled by 10^10 inside (Decimal), and matching and pricing
-- work on those.
--
-- - Prelude, Digits: helpers; bigints as integers, thrown errors as values of Outcome, texts as
--   lists of code units, a Map as an association list, sort as insertion sort, BigInt parsing and
--   printing.
-- - Decimal: pool/decimal.ts, function by function (parse_decimal for parseDecimal, and so on).
-- - Types: the records of types.ts.
-- - Matching: order/matching.ts; match_orders_for_pair for matchOrdersForPair, match_loop for its
--   loop.
-- - Pool: pool/index.ts; Pool/Quote for computeQuote and computeQuoteDetailed, Pool/Liquidity for
--   matchLiquidity, deriveRemovePlan and selectCoveringPrefix.
-- - Ledger: ledger/index.ts, ledger/submit-with-retry.ts and ledger/disclosure.ts;
--   retry_on_contention for retryOnContention, merge_disclosures for mergeDisclosures;
--   DisclosedContract is that of services/registry-client/src/types.ts.
-- - Idempotency: indexer/idempotency.ts; once for IdempotentLedger.once, split where exec is
--   awaited, and the table's events.
-- - Recover: ledger/recover.ts, with the tree reads of the ledger as parameters.
-- - Policy: policy/index.ts; rank_quotes for rankQuotes, build_receipt for buildReceipt.
-- - Pool/Swap and Pool/Views: requestSwap and swap up to the command they submit, listActive and
--   the lookups around it; the contracts that the ledger's queries return are the record
--   Contracts. Pool/Tolerance: enforceOffRatioTolerance and parseBpsLimit, with toFixed left to
--   the engine.
-- - Json: values of JSON.parse, with numbers as integers over powers of ten.
-- - Http: the checks of a request. Http/Validate (http/validate.ts) with write_specs for
--   WRITE_SPECS in Http/Validate/Routes; Http/Auth (http/auth.ts); Http/Token and Http/CallerAuth
--   (http/caller-auth.ts); Http/RateLimit (http/rate-limit.ts), with tokens in sixty-thousandths.
-- - Session: session/index.ts; Session/Keys for the wallet's key, Session/Challenge for challenge
--   and verify, Session/Bootstrap for the bootstrap mint; Session/Run is a service over any
--   sequence of calls. Node's crypto and encodings are the records Http.Token.Engine and
--   Session.SessionEngine.
-- - Order: order/index.ts over the record OrderLedger of ledger and registry calls, each a Flow
--   of Prelude/Flow: Order/Service for bind, fund and cancel, Order/Run for runMatching.
-- - Settlement: settlement/index.ts and ledger/choice-context.ts.
-- - Rfq: rfq/index.ts over the record RfqLedger; it ranks quotes and builds receipts with Policy.
-- - Examples: the theorems at concrete inputs.
--
-- Fuel: match_loop runs on the number of orders, of which each round drops one or two, or stops;
-- newton runs on the number whose root it takes plus one; show on the number plus one. Date.parse
-- and localeCompare are the fields of Host, a parameter.
--
-- Not modelled: the web application, the HTTP server and its routes, the flows of matched trades,
-- the add-liquidity and remove-liquidity submissions, the indexer, the in-memory ledger, the JSON
-- ledger client, the Daml contracts and the vendored packages; aggregateBook, whose levels are
-- ordered by floating point.
pub mod Prelude
pub mod Digits
pub mod Decimal
pub mod Types
pub mod Pool
pub mod Matching
pub mod Ledger
pub mod Idempotency
pub mod Recover
pub mod Policy
pub mod Json
pub mod Http
pub mod Session
pub mod Settlement
pub mod Order
pub mod Rfq
mod Examples
