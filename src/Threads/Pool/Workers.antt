-- ===== src/Threads/Pool/Workers.antt =====
-- How many workers a pool gets: `GetHardwareCores` (libs/core/src/Threads/Threads.cc) and the start of
-- the pools' constructors.
use v8app.Base.{ℤ, pos, negsuc, ℕ, ◌+◌, ◌-◌, ◌%◌, ◌^◌, ◌≡◌, arith, min, max}

-- `std::min(1U, std::thread::hardware_concurrency() - 1)`, in 32 bits.
get_hardware_cores : ℕ → ℕ
get_hardware_cores concurrency = min 1 ((concurrency + 2 ^ 32 - 1) % 2 ^ 32)

-- `m_NumWorkers`.
pub num_workers : ℕ → ℤ → ℕ
unfolding get_hardware_cores
num_workers concurrency (pos requested) = max 1 (min requested (get_hardware_cores concurrency))
num_workers concurrency (negsuc n) =
    max 1 (min (get_hardware_cores concurrency) (get_hardware_cores concurrency))

-- Whatever number of workers is asked for and whatever the hardware has, a pool gets one worker.
pub one_worker : (concurrency : ℕ) (requested : ℤ) → num_workers concurrency requested ≡ 1
unfolding num_workers
one_worker concurrency (pos requested) = ground arith
one_worker concurrency (negsuc n) = ground arith
