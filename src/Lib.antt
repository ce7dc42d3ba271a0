-- ===== src/Lib.antt =====
-- cic_stack_v: a model of the custodial engine cic_eth (apps/cic-eth) and of the transaction cache
-- cic_cache (apps/cic-cache) of this repository, and what is proved of it.
--
-- The program. cic_eth is a set of celery tasks over a database. A request of a user (api/api_task.py)
-- starts a chain of tasks: it passes the locks, reserves a nonce under the id of the chain (apps/cic-eth/cic_eth/eth/nonce.py, db/models/nonce.py), builds a transaction with
-- that nonce, puts it into the queue (queue/tx.py) unless a lock stops it (db/models/lock.py,
-- admin/ctrl.py), and has the sender's gas checked (eth/gas.py): a sender who is short waits for a
-- refill by the gas gifter, who is found by a role (db/models/role.py). The dispatcher asks for the
-- transactions to send next (queue/query.py) and reserves them (runnable/daemons/dispatcher.py); they
-- are then sent (eth/tx.py). The tracker filters the transactions of each block, settles those of the
-- queue and resumes those that wait for gas, and the retrier has a transaction that is stuck sent
-- again at a higher price (sync/retry.py, eth/gas.py). Balances count what is queued
-- (queue/balance.py). cic_cache keeps mined transactions, lists them (db/list.py) and answers requests
-- with them or with Bloom filters of them (cache.py, runnable/daemons/query.py).
--
-- The files. Names are the source's.
--   Prelude, Bits, Sql   shared helpers; bit flags as Python has them; ORDER BY, LIMIT and OFFSET
--   Store                db/models/base.py and error.py of cic_eth: the rows, the session, the actions
--   External             the libraries that cic_eth calls: chainqueue, chainlib, hexathon, the signer
--   Nonce, Reservation   db/models/nonce.py: Nonce and NonceReservation
--   NonceTask            eth/nonce.py
--   LockEnum, Lock       enum.py and db/models/lock.py
--   Ctrl                 admin/ctrl.py
--   Role                 db/models/role.py and the role tasks of eth/account.py
--   QueueTx, QueueQuery  queue/tx.py, and the queries of queue/query.py
--   QueueState           queue/state.py and queue/lock.py
--   Upcoming             get_upcoming_tx of queue/query.py
--   Balance              queue/balance.py
--   Gas                  eth/gas.py, with the limits of task.py and eth/util.py
--   Send                 eth/tx.py
--   Retry                sync/retry.py
--   Filters              runnable/daemons/filters: tx.py, gas.py, register.py, straggler.py; its
--                        children Callback and Tokens: callback.py with eth/meta.py, token.py and
--                        transferauth.py
--   Enqueue              what the tasks of eth/account.py and eth/erc20.py end with
--   Account              create, register and gift of eth/account.py
--   Token                eth/erc20.py, and the tasks of eth/account.py that fill the cache
--   Api                  api/base.py and api/api_task.py: chains of tasks, and a run of one
--   Shift                admin/nonce.py
--   Ext                  ext/tx.py and queue/time.py: list_tx_by_bloom, and in Collate tx_collate
--   Admin                api/admin.py
--   FixNonce             process_nonce of runnable/fix_nonce.py
--   Trust                verify_proofs of eth/trust.py
--   Dispatch             runnable/daemons/dispatcher.py
--   CicCache             db/list.py, cache.py and runnable/daemons/query.py of apps/cic-cache/cic_cache;
--                        in Watch the filters of its tracker
--   Examples             runs of the theorems at concrete inputs
--
-- How it is modelled. An action takes a worker and returns a result, a value or an exception, with the
-- worker after it: what was done before an exception stays done. A worker has the database as it is
-- committed, as its session sees it, whether that session stands in the registry of db/models/base.py,
-- and the celery tasks submitted so far, in order; a task that is submitted is a value, and is not run
-- within the task that submits it. A table is the list of its rows in the order of insertion, and
-- `first` and `all` of a query read it in that order. Addresses, hashes, tags and chain
-- specifications are numbers, as the code only compares them. Numbers are unbounded, as Python's are;
-- flags are read bit by bit. Calls of libraries are fields of the records of External, arguments of
-- the definitions that use them; none of their behaviour is assumed but in a hypothesis of a theorem.
--
-- Bounds. The loop of resend_with_higher_gas has the source's bound of ten attempts, and its other
-- end, ResendImpossibleError, is modelled. Every other loop is over a list, but the dispatcher's, of
-- which one turn is modelled. The bytes of the Bloom filters are four to a number, and a number that
-- needs more is an OverflowError. The decimal digits of a number in a key of tx_collate are made with one
-- step more than the number, and stand for it.
--
-- What is not modelled. Logging, time (the time of a query is an argument), JSON, HTTP and the
-- matching of paths, the encoding of transactions, database connections, and the loss of a worker
-- within a task. Tasks do not overlap: a history is a sequence of whole tasks. A price that is given
-- for a resend is whole. A chain that the API starts runs to its end before another task does. The
-- report of api/admin.py on one transaction, the gas oracles and the HTTP server of cic_eth are left
-- out; cic-meta and contract-migration are other programs.
pub mod Prelude
pub mod Bits
pub mod Store
pub mod Nonce
pub mod Reservation
pub mod External
pub mod LockEnum
pub mod Lock
pub mod Ctrl
pub mod Role
pub mod NonceTask
pub mod QueueState
pub mod QueueTx
pub mod QueueQuery
pub mod Gas
pub mod Sql
pub mod CicCache
pub mod Balance
pub mod Upcoming
pub mod Retry
pub mod Send
pub mod Filters
pub mod FixNonce
pub mod Enqueue
pub mod Account
pub mod Token
pub mod Admin
pub mod Api
pub mod Shift
pub mod Ext
pub mod Trust
pub mod Dispatch
pub mod Examples
