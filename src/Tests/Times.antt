-- ===== src/Tests/Times.antt =====
-- The restorer's place and the restored timers, on small inputs.
use crtools.Base.{ℕ, ◌^◌, ◌-◌, ◌≡◌, refl, ◌⊎◌, [], ◌∷◌, ok, arith}
use crtools.Stats.{usec_per_sec}
use crtools.Restore.{
  Vma, Vmas, vma_hint, restorer_get_vma_hint, TimerEntry, no_time, nsec_per_sec,
  itimer_restore_and_fix, posix_timer_restore_and_fix,
}
use crtools.Restore.Hint.{HintResult, restorer_get_vma_hint-HintResult}
use crtools.Restore.Timers.{
  IsZero, TimerResult, itimer_restore_and_fix-TimerResult, posix_timer_restore_and_fix-TimerResult,
}

abbrev region : ℕ → ℕ → Vma
region start end = record { start = start; end = end }

abbrev target : Vmas
target = record { head = region 65536 69632; rest = region 77824 81920 ∷ [] }

abbrev own : Vmas
own = record { head = region 69632 73728; rest = region 200000 300000 ∷ [] }

abbrev limit : ℕ
limit = 2 ^ 47 - 4096

restorer_get_vma_hint-HintResult_example :
    HintResult limit 4096 target own (restorer_get_vma_hint limit target own 4096)
restorer_get_vma_hint-HintResult_example =
    restorer_get_vma_hint-HintResult limit 4096 target own (omega arith) (omega arith) (omega arith)
      (omega arith) (omega arith)

-- Between the regions of both.
between : restorer_get_vma_hint limit target own 4096 ≡ ok 73728
unfolding restorer_get_vma_hint vma_hint
between = refl

-- The last region of each list is not seen.
abbrev single : Vmas
single = record { head = region 65536 131072; rest = [] }

overlaps_last : restorer_get_vma_hint limit single single 4096 ≡ ok 65536
unfolding restorer_get_vma_hint vma_hint
overlaps_last = refl

abbrev periodic : TimerEntry
periodic = record { interval = record { sec = 1; frac = 0 }; left = no_time }

-- `alarm(10)`
abbrev one_shot : TimerEntry
one_shot = record { interval = no_time; left = record { sec = 10; frac = 0 } }

itimer_restore_and_fix-TimerResult_example :
    (IsZero periodic.interval
      × (itimer_restore_and_fix periodic
          ≡ ok (record { it_interval = no_time; it_value = no_time })))
    ⊎ ((IsZero periodic.interval → ⊥)
        × TimerResult usec_per_sec periodic (itimer_restore_and_fix periodic))
itimer_restore_and_fix-TimerResult_example = itimer_restore_and_fix-TimerResult periodic

posix_timer_restore_and_fix-TimerResult_example :
    TimerResult nsec_per_sec one_shot (posix_timer_restore_and_fix one_shot)
posix_timer_restore_and_fix-TimerResult_example = posix_timer_restore_and_fix-TimerResult one_shot
