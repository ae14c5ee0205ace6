-- ===== src/Lib.antt =====
-- roboinvest is an automated trading system for Japanese stocks. Strategies emit signals, the
-- aggregator merges them, the gateway checks them against the risk rules and turns them into
-- orders, and one of two order managers (oms-paper, oms-live) executes the orders and keeps the
-- positions. The services talk through Pub/Sub topics and a Supabase database; their decisions
-- are pure functions, and those are what this library models.
--
-- The parts, the code they model and the files that hold them:
-- - contracts/python/trade_contracts (enums, signal, order, risk, market, tick_size, scanner_gate,
--   event_paper_dispatch): the shared types with their validators and deterministic ids.
--   Contracts/Enums, Signal, Order, Risk, Ids, TickSize, ScannerGate, EventPaper; a validator is
--   a Boolean test and a function into `Result`.
-- - services/aggregator/src/aggregator/consensus.py: Aggregator/Consensus; `_pick_dominant` is
--   `pick_dominant`, `_build_unified` is `build_unified`, and the three cases of `aggregate` are
--   `emit_single`, `emit_agreed` and `emit_conflict`.
-- - services/gateway/src/gateway: kill_switch.py is Gateway/KillSwitch, lot_calculator.py
--   Gateway/Lots, validator.py Gateway/Validator, execution_gate.py Gateway/ExecutionGate,
--   order_builder.py Gateway/Builder, config.py Gateway/Config and router.py Gateway/Routing.
-- - services/gateway/src/gateway/streaming/runner.py: the tree Gateway/Runner. Process is
--   `_process`, composed of the tests in Gates, of Sizing and Caps, of Dispatch (the reservation
--   of risk, the publication, the cooldowns) and of Journal (the event-paper dispatch), and Batch
--   is `run_once`. Handler is the monad they are written in: a function from the runner's state to
--   an outcome and a state, where the outcome is a value, an early `return` of `_process` or an
--   error. The other modules of the tree are proofs: Rules, Stages, Admission, JournalRule and
--   Progress hold rules for code of this monad, Trace says what justifies a publication, and
--   Placing, Safety, Reservations, Deadlines, Cooldown, Batches, Counting, CapBounds, Sizes,
--   SellStages and Exits lead to the results.
-- - services/oms-paper/src/oms_paper: fill_simulator.py is OmsPaper/Fill, position_updater.py
--   OmsPaper/Position, calendar.py OmsPaper/Calendar, day_monitor.py and swing_monitor.py
--   OmsPaper/Monitor, closeout.py OmsPaper/Closeout, scheduler.py OmsPaper/Scheduler (one day of
--   the loop; `runs n` stands for the n-th call of the runner's closeout).
-- - services/oms-live/src/oms_live: order_parser.py is OmsLive/Parser, position_updater.py
--   OmsLive/Position, stop_monitor.py OmsLive/Stops, closeout.py OmsLive/Closeout, reconciler.py
--   OmsLive/Reconciler (a dictionary by symbol is the list of its values).
-- - services/opportunity-router/src/opportunity_router: models.py is Router/Models and
--   Router/Bindings, integrity.py Router/Integrity, core.py Router/Decision, Router/Evaluate and
--   Router/Capacity.
-- - Pipeline puts the aggregator, the validator and the order builder in sequence.
-- Prelude and Decimal hold the shared notation and the arithmetic; Tests runs the definitions.
-- A long function is split: its branches are helpers with names of their own, composed as in the
-- code. A child module (Lots/Bounds, Fill/Depth) holds the proofs about its parent.
--
-- How Python is modelled:
-- - A `Decimal` is an exact rational (up - down) / (fine + 1). The 28 significant digits of
--   Python's default context are not reached by the sums and products of this code's amounts. A
--   quotient is exact here and rounded to 28 digits there; it is truncated, rounded or compared
--   at once, and one that is no whole number (or half) lies further from the next than that
--   rounding moves it. The code divides only by values that it has checked, or knows, to be
--   positive; `div` is stated for those. A float (`confidence`) is the decimal that `str` prints
--   for it, and `float(...)` is a parameter.
-- - An `int` that the code never makes negative (quantities, lots, days) is a natural number.
-- - A function that may raise returns `Result`; pydantic's `ValidationError` is a `ValueError`.
-- - A UUID is a number. `uuid5` over the JSON text of a list is the parameter `uuid5`, which
--   gets the list; `uuid4` is the parameter `fresh`, and the clock the argument `now`.
-- - A `datetime` is UTC microseconds with the offset of its zone; a `date` is the number of days
--   since 1 January of year 1; a `time` is microseconds since midnight.
-- - The holidays of the `jpholiday` package are the parameter `HolidayCalendar.is_holiday`. The
--   loop that counts business days runs on fuel, `closed_run` for each session; the theorem
--   about it asks that the exchange reopen within `closed_run` days after each day of the
--   searched span.
-- - `json.dumps`, `json.loads`, pydantic's dumps and loads, SHA-256 and `isoformat` are the
--   parameters `Codec` of Router/Integrity and of Gateway/Runner/Services.
-- - What the gateway's runner calls is the parameter `Services`, one for each message: the replies
--   of Supabase, Pub/Sub and the broker, each a value or an error, and the readings of its clocks.
--   The state keeps a trace of the calls that change something outside, the newest first; a
--   publication that raised stays in it, because it may have been delivered. The pulled messages
--   and the reply to the acknowledgement are arguments of `run_once`. Durations and the monotonic
--   clock are microseconds that are not negative, a time in the settings is its hour and minute,
--   the zone of the settings is Asia/Tokyo, and a JSON payload stands as its canonical text.
-- - Not modelled of the runner: logging and its summaries, the order archive, and `run`, which
--   repeats `run_once` with a pause.
-- - Reason codes are constructors; the free text of signals, logging, and the calls to Pub/Sub,
--   Supabase, the broker's REST API and language models are not modelled.
pub mod Prelude
pub mod Decimal
pub mod Contracts
pub mod Aggregator
pub mod Gateway
pub mod OmsPaper
pub mod Pipeline
pub mod OmsLive
pub mod Router
pub mod Tests
