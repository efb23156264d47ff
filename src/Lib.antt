-- ===== src/Lib.antt =====
-- A model of the core of the concurrent banking server: the data structures that its threads share,
-- the accounts and their mutexes, and the transactions that go through PostgreSQL.
--
-- How the program works. The client sends JSON over web sockets. The controllers put requests into a `RequestQueue`; worker threads take them
-- out and call `Load_DB::transaction`, which runs the statements of one request in a transaction of
-- the database, commits, and then has `Bank::applyMemoryUpdate` change the cached accounts. Users,
-- accounts and the index from accounts to users are `HashTable`s. The fraud detector reads the cached
-- transfers and looks for money that comes back to where it started.
--
-- Which file models what, with the source in backend/:
--   HashTable       include/hashtable.hpp, `HashTable`: a list of buckets and the counter
--   CircularQueue   include/request_queue.hpp, `circular_queue`: indices, capacity and array
--   RequestQueue    include/request_queue.hpp, `RequestQueue`: the ring and the flag of `shutdown`
--   Account         include/account.hpp, `Account`: its fields, and whether the mutex is held
--   Transaction, User, Requests   include/transaction.hpp, user.hpp, transaction_request.hpp and the
--                   response of response_queue.hpp
--   TransactionLog  include/transaction_log.hpp, `TransactionLog`
--   Memory          what `Bank` and `Load_DB` keep in memory: heaps for the shared pointers, the
--                   tables, and the lookups of include/bank.hpp
--   Bank            include/bank.hpp, `Bank::applyMemoryUpdate`; include/mutex_guard.hpp. Bank.Locks
--                   has the lock calls of several threads as the steps of an interleaving, apart from
--                   what they do to memory
--   Postgres        the server behind `pqxx`, which the repository does not hold: an interface with a
--                   law for each statement that src/database_loader.cpp executes. A commit takes effect,
--                   is rolled back, or throws in doubt though it took effect. Postgres.Ledger is a
--                   database that meets it.
--   LoadDb          src/database_loader.cpp, `Load_DB::transaction`. LoadDb.Promise says what an answer
--                   promises, in terms of the statements that the request takes
--   CreateAccount   include/database_loader.hpp, `Load_DB::create_account`, with what it uses of the server
--                   and of the functions on passwords as the interface `Registry`; CreateAccount.Granted says which
--                   requests are to be granted
--   StoreUsers      include/database_loader.hpp, `Load_DB::store_users`: rows of optional fields, and
--                   shared pointers as places at the end of the heaps
--   Login           include/database_loader.hpp, `Load_DB::login`, with the interface `Sessions`;
--                   Login.Members is what its reply says
--   Startup         include/database_loader.hpp, the constructor of `Load_DB` and `establish_connection`
--   FraudDetector   include/fraud_detector.hpp, `FraudDetector`: the search, and in FraudDetector.Detect
--                   the loops over memory; `double` and its operations are the interface `Floating`.
--                   FraudDetector.Cycle says what a suspicious cycle is, apart from the search
--   BackendClient   frontend/Premiumbank/BackendClient.cpp, with Qt as an interface
--   QrCodeHelper    frontend/Premiumbank/QrCodeHelper.cpp, with the generator and Qt as an interface
--   StressTestRunner   frontend/Premiumbank/StressTestRunner.cpp, with `QProcess` as an interface
--   ResponseQueue   include/response_queue.hpp
--   WorkerPool      include/worker_pool.hpp, `runTransactionWorker`; WorkerPool.Logins is that of
--                   `runLoginWorker`
--   Json            `jsoncpp`, which the repository does not hold: an interface with the ranges of its
--                   integers
--   Controllers     include/web_socket_controllers.hpp: the parsers, and in Controllers.Handlers the
--                   message handlers of transactions and authentication; Controllers.Fields says what
--                   stands in a message
--   Admin           the same file, `Admin_Controller`: its snapshots and its two handlers
--   ThreadDistributor   include/thread_distributor.hpp
--   Run, Exec       how a piece of C++ ends: a value, an exception, or a fault (undefined behaviour,
--                   or a lock that never returns); Exec threads a state through it
--   Prelude         lists with native lengths, 64-bit integers with their range, tests into Bool
--
-- Names are the source's, in lower case: `getAll` is `get_all`, `record` is `record_entry`. An
-- `int64_t` is a signed integer whose arithmetic faults outside 64 bits; `size_t` wraps at 2 ^ 64.
-- `std::hash` and `operator==` of a key are the interface `HashTable.Key`. A method that holds one
-- mutex for its whole body is one step. Loops are structural recursions, but for the rounds of a consumer
-- or a worker, the loop of `display` and the depth of the search for cycles, which run on fuel: one round
-- more than the queue has items, as many rounds as it has items, and two more than the graph has accounts,
-- are shown to be enough.
--
-- Not modelled: the start and join of threads, the random digits of account numbers, and bcrypt and
-- the QR code generator, which are third-party code; the views of the user interface and what connects
-- its signals; and what is printed.
pub mod Prelude
pub mod Run
pub mod HashTable
pub mod CircularQueue
pub mod QrCodeHelper
pub mod RequestQueue
pub mod Transaction
pub mod Account
pub mod Admin
pub mod TransactionLog
pub mod User
pub mod Exec
pub mod BackendClient
pub mod FraudDetector
pub mod Requests
pub mod Memory
pub mod Bank
pub mod Postgres
pub mod LoadDb
pub mod ResponseQueue
pub mod WorkerPool
pub mod Json
pub mod Controllers
pub mod StressTestRunner
pub mod ThreadDistributor
pub mod CreateAccount
pub mod Startup
pub mod StoreUsers
pub mod Login
