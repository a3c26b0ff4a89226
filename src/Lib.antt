-- ===== src/Lib.antt =====
-- A verification library for lp-agent: a liquidity-management agent on Sui. It models the parts of
-- the program that decide over money without asking anyone: the treasury that sells services for
-- credits, the emergency stop, the planner of a rebalance with the checks on its plans, the
-- arithmetic of lending, and the machine of market states.
--
-- The program's parts and their files here:
--
-- * src/treasury, over one SQLite database. Treasury/Db is the database as a record of tables, and
--   the effects of a statement: a call returns or throws, and a transaction rolls back on a throw.
--   Treasury/Store is store.ts (registerUserTx, upsertCreditRate, recordDepositTx, attemptChargeTx,
--   refundChargeTx and the lookups), Treasury/Credits is creditsForAmount of credits.ts,
--   Treasury/Charges is charges.ts with chargeForServiceWithSignature, Treasury/Watcher is pollOnce
--   and tickOneUser of watcher.ts, Treasury/Backfill is backfill.ts, and Treasury/OpsStore is
--   opsStore.ts. The watcher and the backfill write deposits through the store, the charges debit
--   through it, and Treasury/History runs all of these but the operator's log in any order.
-- * src/risk/emergency.ts is Risk/Emergency: the map of latches, the rows of risk_events, trip,
--   recordDrainAttempt, reset, the rehydration at start and resolveEmergencyStopInDb.
--   circuits.ts is Risk/Circuits and monitor.ts is Risk/Monitor: a state per pool (State), its
--   windows (Feed), the evaluations of L1 and L2 (Levels, Observe), the automatic trips of L3
--   (Trips) and checkPreTick with activeLevel and volRecovered (PreTick); Calls runs them in any
--   order. The monitor trips the emergency stop, which is a field of its state.
-- * src/decision/planMath.ts, planInvariants.ts and lotStore.ts are Decision/Rescale,
--   Decision/Invariants and Decision/Lots, over the RebalancePlan of src/domain/types.ts.
--   diffPlanner.ts is Decision/DiffPlan, whose DiffPlan/Plan is diffPlan, with the correction of
--   inventory.ts in Decision/Inventory and the prices of src/domain/binMath.ts. Its plans are what
--   the plan check reads and the rescale takes.
--   ageStopLoss.ts is Decision/AgeStopLoss, which says what to do with lots that are old and have
--   lost value.
-- * src/strategies/types.ts, the answer of a strategy, is Strategies, and singleBin.ts is
--   Strategies/SingleBin. multiBinSpot.ts is Strategies/MultiBinSpot, with the part of src/forecast
--   that it calls in Forecast (volatility.ts and binWeights.ts). The plan check reads the plans of
--   both too.
-- * src/sui/lending/math.ts is Lending: the redeems of Scallop and Kai with their fee, and the burn
--   for a wanted amount. Lending/Burn is its closed form, which both protocols share.
-- * src/state, over the table market_state_history. State/Params, State/Transitions, State/Machine
--   and State/Journal are params.ts, transitions.ts, machine.ts and regimeJournal.ts.
--
-- Shared files: Prelude has the names of the libraries, the tests on numbers, sums over lists and
-- the integers for bigint; Table has SELECT and UPDATE by a text key, with their laws.
--
-- Numbers are unbounded: a bigint is an integer, and what the program keeps in a JavaScript number
-- (credits, times, counters) is a natural number. Credits are capped at the largest exact integer
-- where they are computed (creditsForAmount), not where they are added up. The order of a table's
-- rows is that of the inserts, newest first (risk_events: oldest first, by id).
-- The loops run over a list, over the bins of a range (as many rounds as its bounds give), over the
-- rounds of the refinement of a burn (the source's maxIterations) or over the bars of the drift's
-- window; none needs more fuel than the source gives.
-- What JavaScript computes with fractions is behind the interface Prelude/Floats, so nothing is
-- assumed about rounding.
--
-- The monitor's clock is an argument of each call, its inserts into risk_events are taken to
-- succeed, and its rows are a list apart from the emergency stop's rows.
--
-- Parameters stand for code outside the repository: the signature check, base64, trim, number
-- printing, normalizeStructTag, the RPC client, the key derivation and the arithmetic of costs.
-- Requests run one at a time: the suspension of a signed request between its nonce and its debit is
-- not modelled, and neither are logs, alerts and timers. One machine of market states writes its
-- table at a time. The services, the other strategies, data feeds and the chain access are not
-- modelled: they are floating-point heuristics and I/O.
pub mod Prelude
pub mod Table
pub mod Treasury
pub mod Risk
pub mod Decision
pub mod Lending
pub mod State
pub mod Forecast
pub mod Strategies
