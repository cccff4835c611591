-- ===== src/Lib.antt =====
-- A verification library for the trading bot's core: the decision whether an order may be placed, the
-- placing of it exactly once, and the emergency stop.
--
-- The program. A market loop (app/services/scheduler.py) asks strategies for signals, has each
-- assessed by the risk engine (app/risk/engine.py) against the live facts, the settings and the
-- session state in the database (app/risk/state.py), and hands an approved one to the execution
-- service (app/execution/service.py), which checks it again, reserves its idempotency key and, in
-- live mode, the single live-trade authorization (app/risk/authorization.py), sends it to the
-- MetaTrader 5 terminal and verifies the protection of what was filled. The bot service
-- (app/services/bot.py) starts and stops the loop and holds the emergency lock in the same state. The
-- news filter (app/news/provider.py) closes the window around high-impact events, and a lease in the
-- database keeps a second process from scanning.
--
-- The files.
--   Base, Num             shared names and tests, lists, exact rational numbers and their order
--   Core                  app/core/config.py, app/core/schemas.py, app/mt5/account.py: `Settings`,
--                         `Signal`, `TradeIntent`, `AccountProfile`, `account_mismatch` for
--                         `account_matches`; `Message` for the persisted reasons
--   Database              app/database/base.py, app/database/runtime.py: the tables, `Db`
--   Risk/Sizing           app/risk/sizing.py, a function for each function of the module
--   Risk/State            app/risk/state.py, the methods of `RiskStateStore`, each from the tables to
--                         its result and the new tables; `Operations` runs any sequence of them
--   Risk/Authorization    app/risk/authorization.py
--   Risk/Engine           app/risk/engine.py: `Facts` the inputs and derived numbers, `Checks` one
--                         verdict per check, `Session` the persisted side, `Assess` the chain
--   Execution/Validation  app/execution/validation.py
--   Execution             app/execution/service.py: `Request` the key and the request, `Records` the
--                         rows, `Protection` the verification of a fill, `Submit` the submission;
--                         `Broker` is what the terminal answers in one submission
--   Bot                   app/services/bot.py: start, stop, emergency stop, reset and refresh
--   Reconciliation        app/services/reconciliation.py: the matching of `_match`; `Booking` is
--                         `_apply` and `_differs`, with `net_pnl` of app/services/analytics.py
--   Analytics             app/services/analytics.py: `drawdown`, `profit_factor` and `_summary`
--   Guards                reading a chain of early returns backwards
--   Strategies            app/strategies/_common.py, app/strategies/ensemble.py; `Trailing` is
--                         app/portfolio/manager.py
--   News                  app/news/provider.py: `Event` the events and the static calendar,
--                         `Payload` one call of the API and its rows, `Cache` the tables,
--                         `Provider` the calendar in memory with its refresh and its gate
--   Market                app/services/scheduler.py: `Lease` the row of the leader, `Levels` the
--                         levels at the market's price (with the tick of app/services/market.py),
--                         `Candidate` one candidate from its identity to its order, `Scan` one
--                         symbol with its gates, `Cycle` one cycle
--   Supervisor            runtime/engine_service.py: the restarting of the engine
--   Tests                 the model at concrete inputs
--
-- How the code is modelled. Floats are exact rationals (numerator and denominator kept, not reduced),
-- so rounding of binary floats is not modelled; `round` and the tolerances 1e-9 and 1e-12 are.
-- Text is a list of ASCII codes; reasons, details and log lines are constructors or left out. A
-- moment is a number of seconds, a day a number of days. An operation on the database is a function
-- of the tables. Where processes run into each other the read and the commit of an operation are
-- apart: the acquisition of the lease, the registration of a trade, the duplicate checks of a
-- submission and its reservation. Other runs of store operations take whole operations, one after
-- the other. A store that raises is a `Faults` or `Fault` argument, the broker's answers are a
-- `Replies` record, the SHA-256 of an intent is the parameter `digest`, and `rivals` is what other
-- processes do between the duplicate checks of a submission and its reservations; in the module
-- Execution/Submit/Register they run whole submissions there. Hashes, printed moments and the reading of
-- ISO-8601 are parameters; what an assessment that raises leaves in the tables is given. Every loop
-- is a recursion on a list but the runner's, which has fuel; it is shown to return with fuel up to a
-- round that ends it.
--
-- Not modelled: the thread of the market loop and what it reports, the grouping of deals and the
-- guards of the reconciliation, the rules of the single strategies, the indicators (pandas), the
-- MQL5 calendar bridge, the whole reports of the analytics, the gateway's own calls, the HTTP
-- interface, the migrations and the code of other platforms; they call the modelled services, or
-- are input and output.
pub mod Base
pub mod Num
pub mod Core
pub mod Database
pub mod Risk
pub mod Execution
pub mod Guards
pub mod News
pub mod Strategies
pub mod Supervisor
pub mod Market
pub mod Reconciliation
pub mod Analytics
pub mod Bot
pub mod Tests
