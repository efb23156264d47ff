-- ===== src/WorkerPool/Serve.antt =====
-- What a worker does with the requests of its queue.
use concurrent_banking_syste.Prelude.{
  inl, inr, refl, ℕ, zero, suc, ◌<◌, ◌≡◌, ◌≢◌, sym, ap, ◌∙◌, Bool, true, false, Option, none, some,
  str_eq, List, [], ◌∷◌, ◌++◌, length, arith, All,
}
use mathlib.Core.List.{append_assoc, append-nil}
use concurrent_banking_syste.Prelude.Int.{ℤ, pos, ◌<ℤ◌}
use concurrent_banking_syste.Run.{Run, ok, fault, null_pointer, Exception}
use concurrent_banking_syste.Exec.{done}
use concurrent_banking_syste.HashTable.{Key}
use concurrent_banking_syste.Account
use concurrent_banking_syste.Account.{Account}
use concurrent_banking_syste.Memory.{Memory, get_balance, account_at}
use concurrent_banking_syste.Requests.{TransactionRequest, TransactionResponse}
use concurrent_banking_syste.RequestQueue.Promise.{Shows, pop_items, pop_refines}
use concurrent_banking_syste.RequestQueue.Drain.{leaving}
use concurrent_banking_syste.ResponseQueue
use concurrent_banking_syste.ResponseQueue.{ResponseQueue}
use concurrent_banking_syste.Postgres.{Postgres, Statement, Balances, LogRow, in_doubt}
use concurrent_banking_syste.LoadDb.{World, transaction, branch}
use concurrent_banking_syste.LoadDb.Synced.{Cached, Synced}
use concurrent_banking_syste.LoadDb.Promise.{Promise}
use concurrent_banking_syste.LoadDb.Single.{withdraw_ends, deposit_ends}
use concurrent_banking_syste.LoadDb.Transfer.{transfer_ends}
use concurrent_banking_syste.WorkerPool.{
  Pool, on_world, take, response, serve, run_transaction_worker,
}

-- The requests whose outcome is known: a positive amount, and for a transfer another account; or a
-- type that the code does not know.
pub data Proper (t : TransactionRequest) : Type 0 where
  proper_withdraw : t.transaction_type ≡ "WITHDRAW" → pos 0 <ℤ t.transaction_amount → Proper t
  proper_deposit : t.transaction_type ≡ "DEPOSIT" → pos 0 <ℤ t.transaction_amount → Proper t
  proper_transfer :
      (to_id : ℤ)
      → t.transaction_type ≡ "TRANSFER"
      → t.to_account ≡ some to_id
      → t.account_id ≢ to_id
      → pos 0 <ℤ t.transaction_amount
      → Proper t
  unknown_type :
      str_eq t.transaction_type "WITHDRAW" ≡ false
      → str_eq t.transaction_type "DEPOSIT" ≡ false
      → str_eq t.transaction_type "TRANSFER" ≡ false
      → Proper t

-- The balance that a row gives for a response.
abbrev pub actual_of : Option Balances → Option ℤ
actual_of none = none
actual_of (some b) = some b.actual

-- The response to an answer, where the row of the account then is `o`.
abbrev pub report : TransactionRequest → Bool → Option Balances → TransactionResponse
report t b o = record {
  request_id = pos 0;
  success = b;
  message = "";
  new_balance_cents = elim o [ some row ↦ row.actual | none ↦ pos 0 ];
  type = t.transaction_type;
  amount = t.transaction_amount;
}

response-report :
    (t : TransactionRequest) (b : Bool) (o : Option Balances)
    → response t b (actual_of o) ≡ report t b o
unfolding response
response-report t b none = refl
response-report t b (some row) = refl

module _ (pg : Postgres) ⦃key : Key ℤ⦄ where
  open pg use {Database, balances, commit}

  abbrev pub Mirrors : World Database → Type 0
  Mirrors w = Synced (balances w.db) w.memory

  -- No commit is in doubt: where one was, memory would lack what the database has.
  abbrev pub NoDoubt : Type 0
  NoDoubt = (d d' : Database) (e : Exception) → ¬ (commit d ≡ in_doubt e d')

  -- The call of a request returns, and memory still mirrors the database.
  pub record Answered (t : TransactionRequest) (w : World Database) (b : Bool) (w' : World Database)
      : Type 0 where
    pub runs : transaction pg t w ≡ done b w'
    pub mirrors : Mirrors w'

  kept :
      (Granted : Type 0) (script : List Statement) (g : ℤ → Option Balances) (rows : List LogRow)
      (w : World Database) (b : Bool) (w' : World Database)
      → NoDoubt
      → Mirrors w
      → Promise pg Granted script g rows w b w'
      → Mirrors w'
  kept _ _ _ _ w true w' sure s p = p.2
  kept _ _ _ _ w false w' sure s (same, how) = elim how [
    | inl (same_db, _) ↦ rw (same_db, same) s
    | inr (_, _, doubt) ↦ absurd (sure doubt.view w'.db doubt.error doubt.doubt)
  ]

  transaction-Answered :
      (t : TransactionRequest) (w : World Database)
      → NoDoubt
      → Proper t
      → Mirrors w
      → (b : Bool) × (w' : World Database) × Answered t w b w'
  unfolding transaction branch
  transaction-Answered t w sure (proper_withdraw ty p) s =
      let (b, w', run, promise) = withdraw_ends pg t w s p ty in
      (b, w', record { runs = run; mirrors = kept _ _ _ _ w b w' sure s promise })
  transaction-Answered t w sure (proper_deposit ty p) s =
      let (b, w', run, promise) = deposit_ends pg t w s p ty in
      (b, w', record { runs = run; mirrors = kept _ _ _ _ w b w' sure s promise })
  transaction-Answered t w sure (proper_transfer to_id ty dest ne p) s =
      let (b, w', run, promise) = transfer_ends pg t w to_id ne s p ty dest in
      (b, w', record { runs = run; mirrors = kept _ _ _ _ w b w' sure s promise })
  transaction-Answered t w sure (unknown_type a b c) s =
      (false, w, record { runs = rw (a, b, c); mirrors = s })

  or_null : Option Account → Run Account
  or_null o = elim o [ some a ↦ ok a | none ↦ fault null_pointer ]

  get_balance-Cached :
      (m : Memory) (id : ℤ) (o : Option Balances)
      → Cached m id o
      → get_balance id m ≡ ok (actual_of o)
  unfolding get_balance account_at Account.get_actual_balance Account.lock or_null
  get_balance-Cached m id none h = rw h
  get_balance-Cached m id (some b) c =
      let there : account_at c.ptr m ≡ ok c.account = ap or_null c.cell_at in
      rw (c.found, there, c.free, c.actual_is)

  -- Where memory mirrors the rows, the balance that it gives is that of the row.
  pub get_balance-row :
      (f : ℤ → Option Balances) (m : Memory) (id : ℤ)
      → Synced f m
      → get_balance id m ≡ ok (actual_of (f id))
  get_balance-row f m id s = get_balance-Cached m id (f id) (s id)

  -- The requests `ts`, served one after the other from `w`: each is answered by `transaction` in the
  -- state that the one before left, and its response has the answer and the balance of the row.
  pub data Served
      : List TransactionRequest
        → World Database
        → List TransactionResponse
        → World Database
        → Type 0 where
    none_served : {w : World Database} → Served [] w [] w
    one_served :
        {t : TransactionRequest} {ts : List TransactionRequest} {w w' w'' : World Database}
        {b : Bool} {rs : List TransactionResponse}
        → Answered t w b w'
        → Served ts w' rs w''
        → Served (t ∷ ts) w (report t b (balances w'.db t.account_id) ∷ rs) w''

  serve-Answered :
      (t : TransactionRequest) (p : Pool Database) (b : Bool) (w' : World Database)
      → Answered t p.world b w'
      → p.responses.shutting_down ≡ false
      → serve pg t p
        ≡ done tt (record p {
          world = w';
          responses = record p.responses {
            queue = p.responses.queue ++ report t b (balances w'.db t.account_id) ∷ [];
          };
        })
  unfolding serve on_world ResponseQueue.push
  serve-Answered t p b w' a open_ = rw (
    a.runs,
    get_balance-row (balances w'.db) w'.memory t.account_id a.mirrors,
    open_,
    response-report t b (balances w'.db t.account_id),
  )

  -- A worker alone, with one round more than there are requests, on a queue that holds proper
  -- requests (a positive amount and, for a transfer, another account; or a type that the code does
  -- not know), from a state in which memory mirrors the database, with the response queue open and
  -- a server whose commits are never in doubt: it serves each request once, in the order of
  -- arrival, by a `transaction` that returns, pushes one response for each, with the answer and the
  -- balance that the row of the account then has, and leaves an empty queue of requests, as closed
  -- as it was, and a memory that mirrors the database.
  pub worker_serves :
      (fuel : ℕ) (ts : List TransactionRequest) (p : Pool Database) (closed : Bool) (cap : ℕ)
      → length ts < fuel
      → Shows p.queue ts closed cap
      → All Proper ts
      → NoDoubt
      → Mirrors p.world
      → p.responses.shutting_down ≡ false
      → (p' : Pool Database) × (rs : List TransactionResponse) × (run_transaction_worker pg fuel p
          ≡ done (leaving closed) p')
        × Served ts p.world rs p'.world
        × (p'.responses.queue ≡ p.responses.queue ++ rs)
        × Mirrors p'.world
        × Shows p'.queue [] closed cap
  unfolding run_transaction_worker take pop_items
  worker_serves zero ts p closed cap l s proper sure mirrors open_ = absurd (omega arith)
  worker_serves (suc fuel) [] p true cap l s proper sure mirrors open_ =
      let (r, run, (said, s')) = pop_refines p.queue [] true cap s in
      (
        record p { queue = r.1 },
        [],
        rw (run, said),
        none_served,
        sym (append-nil p.responses.queue),
        mirrors,
        s',
      )
  worker_serves (suc fuel) [] p false cap l s proper sure mirrors open_ =
      let (r, run, (said, s')) = pop_refines p.queue [] false cap s in
      (
        record p { queue = r.1 },
        [],
        rw (run, said),
        none_served,
        sym (append-nil p.responses.queue),
        mirrors,
        s',
      )
  worker_serves (suc fuel) (t ∷ ts) p closed cap l s proper sure mirrors open_ =
      let (r, run, (said, s')) = pop_refines p.queue (t ∷ ts) closed cap s in
      let (b, w', a) = transaction-Answered t p.world sure proper.0 mirrors in
      let resp = report t b (balances w'.db t.account_id) in
      let q : Pool Database = record p { queue = r.1 } in
      let q' : Pool Database = record q {
        world = w';
        responses = record p.responses { queue = p.responses.queue ++ resp ∷ [] };
      } in
      let served = serve-Answered t q b w' a open_ in
      let (p', rs, runs, sv, grew, mirrors', empty) =
        worker_serves fuel ts q' closed cap (omega arith) s' proper.1 sure a.mirrors open_ in
      (
        p',
        resp ∷ rs,
        rw (run, said, served, runs),
        one_served a sv,
        grew ∙ append_assoc p.responses.queue (resp ∷ []) rs,
        mirrors',
        empty,
      )
