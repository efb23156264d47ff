-- ===== src/ThreadDistributor.antt =====
-- `Thread_Distributor` of backend/include/thread_distributor.hpp: a third of the threads for each of
-- three uses, and one thread where the third is none. The number of threads is that of
-- `std::thread::hardware_concurrency`, which may be zero.
use concurrent_banking_syste.Prelude.{ℕ, ◌+◌, ◌/◌, ◌≤◌, arith, ◌==◌, ltb, if◌then◌else◌}

pub record ThreadDistributor : Type 0 where
  pub total_threads : ℕ
  pub drogon_distributor : ℕ
  pub authorization_workers : ℕ
  pub transaction_workers : ℕ

at_least_one : ℕ → ℕ
at_least_one n = if n == 0 then 1 else n

unfoldable pub new : ℕ → ThreadDistributor
unfolding at_least_one
new hardware_concurrency = record {
  total_threads = hardware_concurrency;
  drogon_distributor = at_least_one (hardware_concurrency / 3);
  authorization_workers = at_least_one (hardware_concurrency / 3);
  transaction_workers = at_least_one (hardware_concurrency / 3);
}

abbrev pub shared_out : ThreadDistributor → ℕ
shared_out d = d.drogon_distributor + d.authorization_workers + d.transaction_workers

-- For every number of threads, each use gets one thread at least, the three together get no more
-- than there are (or three, if there are fewer), and at most two are left over.
pub new-shares :
    (n : ℕ)
    → (1 ≤ (new n).drogon_distributor)
      × (1 ≤ (new n).authorization_workers)
      × (1 ≤ (new n).transaction_workers)
      × (shared_out (new n) ≤ (if ltb n 3 then 3 else n))
      × (n ≤ shared_out (new n) + 2)
unfolding new
new-shares n = ground arith
