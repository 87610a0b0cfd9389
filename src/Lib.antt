-- ===== src/Lib.antt =====
-- Flow Rosetta: a server that follows the Flow chain, keeps an index of accounts, balances and
-- blocks, and answers Rosetta API requests from it. The state package takes blocks in order from
-- the access API and calls `Index`; the API reads the index by height and by hash.
--
-- Modelled here:
-- - deque/deque.go, the queue of block hashes that the indexer fills backwards from a known block:
--   Deque.antt (Queue, New, Push, Pop, Cap, Len). A method is a function on the struct's fields and
--   `none` is a panic. The element type, the zero identifier and the largest length that `make` accepts
--   are parameters.
-- - model/model.proto and model/model.go: Model.antt, the messages that the index stores.
-- - indexdb/indexdb.go: IndexDb.antt, its keys and reads; IndexDb/Write.antt, `Index` and
--   `SetGenesis`; IndexDb/Reset.antt, `ResetTo`; IndexDb/Purge.antt, `PurgeProxyAccounts`; IndexDb/Accounts.antt,
--   `Accounts`. IndexDb/Database.antt has the two interfaces to code outside the repository: an
--   ordered key-value store (Badger) and an encoding of two messages (proto), each with the laws that
--   its documentation gives; Database/Sorted.antt and Database/Plain.antt are instances for the tests.
--   IndexDb/Indexed.antt is the invariant of a database, IndexDb/Write/Runs.antt has calls of `Index`
--   one after another, IndexDb/Changes.antt the abstract view: the
--   changes of an account by height.
--
-- - crypto/crypto.go: Crypto.antt, ConvertFlowPublicKey.
-- - state: State.antt has the indexer's fields that are read here. State/Cadence.antt and State/Flow.antt
--   are the interfaces to the packages cadence and flow-go; decoders, hashes and trees are parameters, and
--   what is hashed is built field by field. State/Events.antt is the two loops of `processBlock` over a
--   transaction's events, State/Operations.antt the operations that it makes, State/Transactions.antt the
--   grouping of results and the loops around, State/EventHashes.antt the hashes of events,
--   State/Execution.antt and State/Headers.antt the rest of convert.go, State/Blocks.antt a round of
--   `processBlock` behind its fetching, and the commit, State/Parents.antt the parts of state.go. An `err`
--   of a round means that it is made again without the cache. The indexer and the index meet in
--   State/Blocks/Ledger.antt.
--
-- Numbers are natural numbers; a uint64 wraps where the code can overflow, and an int64 is its two's
-- complement pattern, so a balance is negative from 2^63 on. A byte is a number. Errors of the
-- database other than a missing key are left out. `crash` stands for a panic and for log.Fatalf.
-- A Go map is a list of entries in the order of insertion. Loops are recursion on the list that they
-- run over, so there is no fuel.
--
-- Not modelled: goroutines and locks (each call is atomic), the network clients and the fetching with
-- its retries and slow path, the loop over the live spork, the API services, logging, and the commands.
-- The order in which Go iterates over a map is any order; the model takes that of insertion. A decoded
-- list of messages has no nil elements.
--
-- Of indexdb/indexdb.go, AccountsInfo, ExportAccounts (reports for operators) and New (which opens
-- the database) are left out.
--
-- A store is well formed (IsStore of IndexDb/Write/Step.antt) if its latest block in memory is the
-- given one and its database is indexed up to that height (IsIndexed of IndexDb/Indexed.antt): the
-- height is below 2^64, every item with a key of an account, a proxy mark or a block hash has a key
-- of the right form with a height up to that one, and every balance is below 2^63. Operations are
-- well formed (AreTxns of IndexDb/Write/Totals.antt) if amounts are below 2^64 and addresses have 8
-- bytes or are left out.
pub mod Shared
pub mod Crypto
pub mod Deque
pub mod Model
pub mod IndexDb
pub mod State
