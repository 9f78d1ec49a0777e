-- ===== src/Tests/Restore.antt =====
-- The restorer's memory, the statistics, the log of the injected code and the mutex, on small inputs.
use crtools.Base.{
  ℕ, ◌-◌, ◌^◌, ◌≤◌, ◌<◌, ◌≡◌, ◌⊎◌, refl, inl, List, [], ◌∷◌, none, some, ok, ◌>>=◌, length,
  replicate, arith,
}
use crtools.RstMalloc.{Mmaps, RstMems, rm_shremap, rst_mems, rst_mem_alloc, rst_mem_remap}
use crtools.RstMalloc.Alloc.{IsBuffer, AllocResult, rst_mem_alloc-AllocResult}
use crtools.RstMalloc.Remap.{RemapResult, rst_mem_remap-RemapResult}
use crtools.Stats.{Timeval, Stats, StatsPtrs, no_timing, timing_start, timing_stop}
use crtools.Stats.Elapsed.{usecs, Timed, timing_stop-Timed}
use crtools.LogSimple.{SimpleBuf, word, plain, vprint_num, num_text, print_on_level, put_digits}
use crtools.LogSimple.Print.{expand, Logs, print_on_level-Logs}
use crtools.LogSimple.Decimal.{read_num, vprint_num-read}
use crtools.Lock.{
  Thread, outside, trying, holding, waiting, asleep, Mutex, mutex_init, enter, take_it, miss, sleep,
  Run, start, then,
}
use crtools.Lock.Exclusion.{
  weigh, is_holding, is_active, mutex_lock-exclusive, mutex_unlock-awaited,
}

-- A kernel that maps at 0x10000 and moves where it is told to.
abbrev mmaps : Mmaps
mmaps = record {
  mmap = λ size. some 65536;
  mremap = λ buf old new. some buf;
  mremap_fixed = λ buf size to. some to;
}

shremap-IsBuffer : IsBuffer rst_mems.shremap
shremap-IsBuffer = record {
  remaps = refl;
  enabled = refl;
  grows = inl refl;
  starts = omega arith;
  filled = refl;
  last_fits = omega arith;
  word = omega arith;
}

rst_mem_alloc-AllocResult_example :
    AllocResult 100 rm_shremap rst_mems (rst_mem_alloc mmaps 100 rm_shremap rst_mems)
rst_mem_alloc-AllocResult_example =
    rst_mem_alloc-AllocResult mmaps 100 rm_shremap rst_mems shremap-IsBuffer (omega arith)

-- Both buffers in use.
abbrev used : RstMems
used = record {
  shared = rst_mems.shared;
  shremap = record rst_mems.shremap {
    buf = 65536;
    size = 8192;
    free_mem = 65636;
    free_bytes = 8092;
  };
  private = record rst_mems.private {
    buf = 131072;
    size = 8192;
    free_mem = 131172;
    free_bytes = 8092;
  };
}

rst_mem_remap-RemapResult_example :
    RemapResult mmaps 1048576 used (rst_mem_remap mmaps 1048576 used)
rst_mem_remap-RemapResult_example =
    rst_mem_remap-RemapResult mmaps 1048576 used (λ buf size at' aux e. cc)
      (record { remaps = refl; mapped = refl }) (record { remaps = refl; mapped = refl })

abbrev early : Timeval
early = record { tv_sec = 10; tv_usec = 900000 }

abbrev late : Timeval
late = record { tv_sec = 12; tv_usec = 100000 }

abbrev dump : Stats
dump = record {
  timings = no_timing ∷ no_timing ∷ no_timing ∷ no_timing ∷ [];
  counts = 0 ∷ 0 ∷ 0 ∷ [];
}

abbrev ptrs : StatsPtrs
ptrs = record { dstats = some dump; rstats = none }

timing_stop-Timed_example :
    (p' : StatsPtrs) × ((timing_start 2 early ptrs >>= timing_stop 2 late) ≡ ok p')
    × Timed 2 (usecs late - usecs early) dump ptrs p'
timing_stop-Timed_example =
    timing_stop-Timed 2 early late ptrs dump (record { kept = refl; sized = refl }) (omega arith)
      (omega arith) (omega arith) (omega arith) (omega arith)

abbrev buffer : SimpleBuf
buffer = record { buf = replicate 72 0; bp = 0; written = [] }

-- "n %d", with 7.
abbrev format : List ℕ
format = 110 ∷ 32 ∷ 37 ∷ 100 ∷ []

print_on_level-Logs_example :
    Logs buffer (expand plain format (word 7 ∷ [])) (print_on_level 4 3 format (word 7 ∷ []) buffer)
print_on_level-Logs_example = print_on_level-Logs 4 3 format (word 7 ∷ []) buffer refl refl

vprint_num-read_example :
    (read_num 32 (vprint_num 4294967289) ≡ 4294967289) × (length (vprint_num 4294967289) ≤ 11)
vprint_num-read_example = vprint_num-read 4294967289 (omega arith) refl

-- The least `int` is printed as a sign without digits, which reads as 2^32 and not as the number: its negative is taken in an
-- `int`, where it is the number again.
vprint_num_least : (read_num 32 (vprint_num (2 ^ 31)) ≡ 2 ^ 32) × (length (vprint_num (2 ^ 31)) ≡ 1)
unfolding vprint_num num_text put_digits
vprint_num_least = (refl, refl)

abbrev threads : List Thread
threads = outside ∷ outside ∷ []

abbrev at : ℕ → Thread → Thread → Mutex
at raw a b = record { raw = raw; threads = a ∷ b ∷ [] }

-- The first thread takes the mutex, and the second goes to sleep.
contention : Run (mutex_init threads) 5 (at 2 holding asleep)
contention =
    then {m1 = at 2 holding (waiting 2)} 1
      (then {m1 = at 1 holding trying} 1
        (then {m1 = at 1 holding outside} 1
          (then {m1 = at 0 trying outside} 0 (then {m1 = mutex_init threads} 0 start (enter refl))
            (take_it refl refl))
          (enter refl))
        (miss refl (λ e. absurd (omega (arith, e)))))
      (sleep 2 refl refl)

mutex_lock-exclusive_example :
    (((at 2 holding asleep).raw ≡ 0) × (weigh is_holding (holding ∷ asleep ∷ []) ≡ 0))
    ⊎ ((0 < (at 2 holding asleep).raw) × (weigh is_holding (holding ∷ asleep ∷ []) ≡ 1))
mutex_lock-exclusive_example =
    mutex_lock-exclusive threads 5 (at 2 holding asleep) (refl, (refl, tt)) (omega arith) contention

mutex_unlock-awaited_example : 0 < weigh is_active (holding ∷ asleep ∷ [])
mutex_unlock-awaited_example =
    mutex_unlock-awaited threads 5 (at 2 holding asleep) (refl, (refl, tt)) (omega arith) contention
      (omega arith)
