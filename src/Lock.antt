-- ===== src/Lock.antt =====
-- mutex_lock and mutex_unlock (include/lock.h), as the steps of the threads that use one mutex.
pub mod Exclusion
use crtools.Base.{ℕ, suc, ◌+◌, ◌%◌, ◌^◌, ◌≡◌, ◌≢◌, List, Option, some, get_elem?, set}

-- Where a thread is: outside, before the increment in `mutex_lock`, before its FUTEX_WAIT for `c`,
-- asleep in it, behind the loop, and between the two statements of `mutex_unlock`.
pub data Thread : Type 0 where
  outside : Thread
  trying : Thread
  waiting : ℕ → Thread
  asleep : Thread
  holding : Thread
  waking : Thread

-- `raw` is the `atomic_t` of the `mutex_t`. Only the thread that holds the mutex unlocks it.
pub record Mutex : Type 0 where
  pub raw : ℕ
  pub threads : List Thread

abbrev pub mutex_init : List Thread → Mutex
mutex_init ts = record { raw = 0; threads = ts }

-- `atomic_inc_return`
abbrev pub inc_return : ℕ → ℕ
inc_return raw = (raw + 1) % 2 ^ 32

abbrev pub goes : Mutex → ℕ → ℕ → Thread → Mutex
goes m raw i t = record { raw = raw; threads = set m.threads i t }

-- One step of thread `i`. A thread that is asleep may be woken by another one, by FUTEX_WAKE, or
-- return for no reason; FUTEX_WAKE wakes one thread if one is asleep. FUTEX_WAIT has no error but EWOULDBLOCK.
pub data Step (m : Mutex) (i : ℕ) : Mutex → Type 0 where
  enter : get_elem? m.threads i ≡ some outside → Step m i (goes m m.raw i trying)
  take_it :
      get_elem? m.threads i ≡ some trying
      → inc_return m.raw ≡ 1
      → Step m i (goes m (inc_return m.raw) i holding)
  miss :
      get_elem? m.threads i ≡ some trying
      → inc_return m.raw ≢ 1
      → Step m i (goes m (inc_return m.raw) i (waiting (inc_return m.raw)))
  sleep :
      (c : ℕ)
      → get_elem? m.threads i ≡ some (waiting c)
      → m.raw ≡ c
      → Step m i (goes m m.raw i asleep)
  would_block :
      (c : ℕ)
      → get_elem? m.threads i ≡ some (waiting c)
      → m.raw ≢ c
      → Step m i (goes m m.raw i trying)
  return_early : get_elem? m.threads i ≡ some asleep → Step m i (goes m m.raw i trying)
  release : get_elem? m.threads i ≡ some holding → Step m i (goes m 0 i waking)
  wake :
      (j : ℕ)
      → get_elem? m.threads i ≡ some waking
      → get_elem? (set m.threads i outside) j ≡ some asleep
      → Step m i (goes (goes m m.raw i outside) m.raw j trying)
  wake_none :
      get_elem? m.threads i ≡ some waking
      → ((j : ℕ) → get_elem? m.threads j ≢ some asleep)
      → Step m i (goes m m.raw i outside)

-- `n` steps.
pub data Run (m : Mutex) : ℕ → Mutex → Type 0 where
  start : Run m 0 m
  then : {n : ℕ} {m1 m2 : Mutex} (i : ℕ) → Run m n m1 → Step m1 i m2 → Run m (suc n) m2
