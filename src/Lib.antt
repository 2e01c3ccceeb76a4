-- ===== src/Lib.antt =====
-- Quant Arena, a simulated stock exchange: the ledger, the gateway's risk state and the market data
-- that the fan-out derives, all of them folds of the exchange's event stream, and the connections
-- that carry it to the clients.
--
-- The gateway reserves cash or units for an order and appends it to the inbound stream; the matcher
-- answers on the outbound stream with accepted orders, fills and cancellations; the ledger, the
-- risk state of the gateway and the fan-out each fold that stream into a state of their own. No part
-- calls another: they meet in the records.
--
-- Which file models what:
--   Prelude, Prelude/Int   names of the libraries, Boolean tests, keys, signed integers
--   Dict and below         Python's dict and set, sums over them, counters and balances
--   Contracts, .../Side    the outbound records of contracts/v1/generated/contracts.py
--   Wire and below         the same file byte for byte: `struct` in Wire/Struct, a file for each
--                          record, and in Wire/Any `unpack_any` with its table
--   Engine/Book and below  engine/naive_model.py, the book that says what matching means: `add_order`,
--                          `match_order` and `remove_order` are the methods of `OrderBook`, and
--                          `match_round` is one round of the loop of `match`
--   Matcher/Adapter        services/matcher/adapter.py: `apply` is `NaiveMatcher.apply`, over a book of
--                          Engine/Book for each symbol; Matcher/State has its state, Matcher/Records
--                          what it reads and writes
--   Matcher/Snapshot       services/matcher/snapshot.py: the engine's state as bytes
--   Ledger and below       services/ledger/ledger.py, and the replay loop of
--                          services/ledger/consumer.py: `apply` is `Ledger.apply`, with a function
--                          for each branch
--   Ledger/Consumer        the positions of `flush_to_db` in services/ledger/consumer.py, over a table
--                          of the database that is an interface with the laws of DELETE and INSERT
--   Gateway/Risk and below services/gateway/risk.py: `reserve`, `release` and `apply` are the methods
--                          of `RiskState`; Life adds the order in which routes and watcher call them
--   Gateway/Orders         services/gateway/routes_orders.py: `abandon`, which undoes a reservation
--   Fanout/Book            services/fanout/book.py: `accept`, `fill`, `cancel`, `levels`, `best`
--   Fanout/Bars            services/fanout/bars.py: the tape, the bar builder, the set of widths
--   Fanout/State           services/fanout/state.py: `MarketState.apply` and its drains
--   Fanout/Subscribers     services/fanout/subscribers.py: a connection with its two queues, its
--                          channels and its writer, whose steps are what runs between two awaits
--   Fanout/Halt            services/fanout/halt.py, `_halt_frame` of services/fanout/conflation.py, and the
--                          loop of `watch_halt` in services/fanout/server.py
--
-- Conventions. A method takes the state and returns the new one, with its result beside it; a call
-- that may raise returns a result type, and what was written before a raise stays written. Prices,
-- quantities, ids and timestamps are natural numbers: the gateway's request models admit positive
-- prices and quantities only, and the ids are unsigned on the wire. Cash and positions are integers
-- and unbounded, as Python's are. A dict is an association list in insertion order, a set a list
-- without repetition. A branch that finds an entry of a dict is a function by clauses over what the
-- lookup returned. A subtraction that the source clamps at zero, or follows by a deletion at zero or
-- below, is the truncated subtraction of natural numbers. Sides are the integers of the wire: 1 buys,
-- and what is not 1 sells where the source has an `else`. Loops run over lists, but for the `while
-- True` of `match`, which runs on fuel: each round trades at least one unit of the bids, so that more
-- fuel than their units is enough. Concurrency is a list of events, each of which runs one piece of
-- code that awaits nothing. An order of the reference book is an object that its level and the table
-- share: the table holds it, and a level holds its id. `str` of a symbol's number, which the matcher
-- stamps on the orders of its book and never reads, is a parameter.
--
-- Not modelled: Redis, PostgreSQL, HTTP, WebSockets and the JSON of checkpoints, which are
-- libraries; the C++ engine; the bots, the backtester and the archiver; configuration and scripts.
-- What the matcher guarantees of its records stands in the hypotheses of the theorems: an order id is
-- given once, a fill names two open orders and takes no more than either has left, at a price within
-- the buyer's limit.
pub mod Prelude
pub mod Dict
pub mod Contracts
pub mod Ledger
pub mod Gateway
pub mod Wire
pub mod Engine
pub mod Matcher
pub mod Fanout
