-- ===== src/Lib.antt =====
-- Verification of the continuous copy-trading engine of hyperliquid-copytrader, a program that
-- follows the positions of leader accounts on a venue with IOC orders of follower accounts.
--
-- Base (with Base/Tests, Lists, Int, Text, Result): the shared names, integers, Python strings, and
-- calls that return or raise.
-- Journal: src/hyperliquid_copytrader/action_journal.py, the durable journal of nonces and orders.
--   Journal/States and Records are `ActionState`, `ActionRecord` and the argument checks (and
--   `validate_cloid` of cloid.py); Journal/Changes holds what each method does to its row;
--   Journal/Store is `ActionJournal`, by its tables (Store/Tables), the methods that write
--   (Store/Methods) and those that read (Store/Queries). Journal/Calls runs histories of calls. The
--   other modules are proofs. A method is a function of the journal with the clock as an argument;
--   an exception is an error value, and as the transaction rolls back it carries no journal.
-- Wire: src/hyperliquid_copytrader/ws_actions.py. Wire/Json holds the JSON values, Wire/Results the
--   outcomes, Wire/Classify `classify_ioc_response`, Wire/Post the connection epochs and one request
--   of `WsPostMux` (`_post`, `post_action`, `post_info`), where the socket and the event loop are an
--   argument, `Network`. Wire/Status is `classify_order_status` and
--   Wire/Retry `RestRetrySession` of src/hyperliquid_copytrader/reconciliation.py. Wire/Classified,
--   Boundary and Resolved are proofs. `lower` stands for `casefold`,
--   which differs from it outside ASCII. Not modelled: the pending futures and the send gate.
-- Executor: src/hyperliquid_copytrader/continuous_executor.py. Executor/Orders builds and signs the IOC
--   action, Executor/Records holds the records, Executor/Recording `_record_result` and `before_send`,
--   Executor/Lane `execute_ioc`, Executor/Recover the two methods on open actions,
--   Executor/Resolve `resolve_by_cloid`. A method returns
--   its result with the journal that it leaves, as what was written before an exception stays. What
--   Python's and the venue's libraries do (hash, JSON text, signature) is a `Platform`, an argument.
--   The other modules are proofs: Executor/Reached, Histories and Resolutions reduce the lane to journal calls,
--   Executor/Writes and Settles follow one result, Executor/Exposure the open sizes. Not modelled: durations, keys.
-- Throttle: src/hyperliquid_copytrader/rest_throttle.py. Throttle/Weights holds the request
--   weights, Throttle/Reserve the reservation on the state that all processes share,
--   Throttle/Backoff the retries; the state file is its JSON fields and the clocks are arguments.
--   Throttle/Spacing runs a sequence of reservations, in the order in which they hold the lock.
--   Not modelled: the lock, the file and the environment.
-- Markets: src/hyperliquid_copytrader/markets.py, names of markets: Markets/Identity.
--   Markets/Canonical is proofs.
-- Account: src/hyperliquid_copytrader/account_stream.py, the reducer of account frames.
--   Account/Records holds the records and dictionaries, Account/Rows the rows of a frame,
--   Account/Memory the deduplication of fills, Account/Chain the positions that live fills
--   advance, Account/Stream the stream's state with its connections, scope and freshness,
--   Account/Fills the two fill channels, Account/Spot the channel of collateral, Account/Snapshots
--   that of positions, Account/OpenOrders the two of open orders, with the parsers of
--   src/hyperliquid_copytrader/unified_account.py and observer.py in Account/States and
--   Account/Orders; Account/Apply is `AccountStream.apply` on a frame of any channel.
--   Python's `str` and `int` of a text are arguments.
--   Account/Continuity follows sizes, Account/Recency, Remembered and Seeded the memory in one
--   frame, Account/Reduced, NeverAgain, Reports, Effects, Epochs, Forward and Channels the stream,
--   Account/Distinct, KeptOrders and Sessions the open orders over its whole life.
-- Engine: what to trade. Engine/Precision is src/hyperliquid_copytrader/precision.py,
--   Engine/Preflight order_preflight.py, Engine/Portfolio `build_desired_portfolio` and Engine/Choose
--   `choose_next_action` of desired_engine.py, whose records are in Engine/Records. A decimal is a number of quanta;
--   sums are exact, and the product and the quotient, which Python rounds to the digits of its
--   context, are arguments of which nothing is assumed. Engine/Sizes, Admitted, Chosen, Rounds, Idle, Limits
--   and Selected are proofs. Not modelled: the texts of reasons and of decimals for the wire.
-- Not modelled: the signing libraries, sockets, SQLite, the web pages and the offline scripts,
--   which are calls of other programs; the legacy service, its copy engine and its persistence; the
--   market catalog and stream, the REST budget, the socket loops of the continuous runtime, and
--   configuration and reports.
pub mod Account
pub mod Base
pub mod Engine
pub mod Executor
pub mod Journal
pub mod Markets
pub mod Throttle
pub mod Wire
