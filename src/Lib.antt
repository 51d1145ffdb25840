-- ===== src/Lib.antt =====
-- A verification of Phlebas, an exchange between native assets: the parts of `src/lib` that decide
-- who trades with whom, for how much, and what the reserve behind withdrawals still owes.
--
-- The parts and their files.
--   Base         shared lists, tests, calls that may throw, and the sort with a comparator.
--   Units        src/lib/units.ts: integer prices, sizes and quote amounts, their roundings, the
--                least size that settles, and the worst price of a market order.
--   Matcher      src/lib/matcher.ts: the book of resting orders. `submit_order`, `cancel_order`,
--                `expire_resting_orders` are `submitOrder`, `cancelOrder`, `expireRestingOrders`;
--                the loop of `matchAgainst` is `match_loop` over `match_round`. It uses Units for
--                the least size that settles, which is how it avoids dust.
--   OrderDomain  src/lib/order-domain.ts and the order record of src/lib/eip712-order.ts: canonical
--                identifiers.
--   Lifecycle    src/lib/order-lifecycle.ts: which signed orders are accepted, cancelled or out of
--                date. Lifecycle/Effects says what each operation has done, Lifecycle/Forward and
--                Lifecycle/Finality what holds over histories. The hash of an order's body,
--                `hashOrderStruct`, is a parameter of which nothing is assumed.
--   PriceTime    src/lib/price-time.ts: the plan of a taker against sequenced resting orders, by
--                strict price-time priority. It uses OrderDomain for hashes and accounts.
--   Settlement   src/lib/settlement-accounting.ts: the ledger of balances, and the settlement of a
--                planned fill of two active orders, in Settlement/Settle. It uses Lifecycle for an
--                order's activity and PriceTime for the fill. A signed delta is what comes in and
--                what goes out; the hash that names a fill is a parameter. Settlement/Balances
--                follows the deltas to the balance of each account, Settlement/Totals to the sums.
--   RateLimit    src/lib/rate-limit.ts: the token bucket of each key.
--   Reserve      src/lib/reserve.ts: withdrawal claims, the coverage check, and the operations that
--                sign, broadcast, mine, confirm, refund and repair a withdrawal. Reserve/Replace
--                is about the one claim that an operation replaces or takes off the list.
--   SwapDomain   src/lib/swap-domain.ts: the signed terms of a swap of ZEC against a stablecoin
--                (Terms) and the markets that are approved (Markets).
--   SwapPolicy   src/lib/swap-policy.ts: the timing, observer and finality policies that the terms
--                bind, and the deadlines (Deadlines).
--   Swap         src/lib/swap-state.ts: the state of a swap in two legs. Attestations and Evidence
--                validate what observers report, Legs, Resolutions and Integrity are
--                `assertSwapStateIntegrity`, Operations, Observations and Recovery the operations,
--                Phase is `swapPhase`. Inversion, Moves, Payments, Outcomes, Preparation and Quorum prove
--                what a state that is asserted says. It uses SwapDomain and SwapPolicy.
--   SwapJournal  src/lib/swap-journal.ts: the events of a swap, each of which is an operation of
--                Swap. Transitions, Order, Terminal, Histories and Atomicity prove what holds after
--                one event and after any sequence of events. Receipts and Chain are the journal of
--                receipts with its hash chain, its verification, and its replay in
--                src/lib/swap-replay.ts; Verified, Appending and Appended prove what an accepted
--                journal is good for and that appends keep it.
--
-- How the code is read. A `bigint` is a natural number: a guard against a negative amount never
-- fires, and where a difference could be negative the test is written out. A `number` that counts, as
-- the sequence number of a book in src/lib/matcher.ts does, is a natural number too, which is exact
-- below 2 ^ 53 and is not bounded here. A call that may throw
-- returns a `Result`, whose error is the message of the exception, without the values that the
-- source interpolates into it. The copies that the source makes of a book are the values
-- themselves. `Array.prototype.sort` is a stable insertion sort with the source's comparator. A
-- `Set` is the list of what was added to it, and a record used as a map a function of its keys, or
-- in Settlement the list of its entries. Texts that are taken apart are lists of their code units.
--
-- SHA-256 is a parameter of the swap's modules, a function of what is hashed: `Hashed` has a
-- constructor for each text that the source joins from its parts, so that the model says which parts
-- a hash is of, and nothing is assumed of the function. The journal takes the hash of a payload, of
-- an event's parts and of a state in the same way.
--
-- Fuel. The loop of `matchAgainst` has one round more than there are makers: each round but the
-- last takes the front maker off or stops, which the results below include, since a submission is
-- shown to return. The walk of `assertResolutionGraphAcyclic` has one round more than the graph has
-- keys, and each round visits a key that it has not visited: a walk without fuel throws, as the
-- source does on the cycle that it is in.
--
-- Not modelled: the user interface, wallet providers, HTTP services and their storage, the Zcash
-- encodings, the contracts (Solidity), and what is computed in floating point; in src/lib/units.ts
-- the decimal texts; in src/lib/matcher.ts the view `levelsFromBook`; in src/lib/order-domain.ts
-- the identifiers that are hashes; in src/lib/swap-replay.ts the snapshots; the rounds of SHA-256 in
-- src/lib/sha256.ts and the texts that are hashed. No property here speaks of them.
pub mod Base
pub mod Lifecycle
pub mod Matcher
pub mod OrderDomain
pub mod PriceTime
pub mod RateLimit
pub mod Reserve
pub mod Settlement
pub mod Swap
pub mod SwapDomain
pub mod SwapJournal
pub mod SwapPolicy
pub mod Units
