-- ===== src/Restore.antt =====
-- cr-restore.c: where the restorer's code and data go, and the checks of timers, scheduling and limits.
pub mod Hint
pub mod Timers
use crtools.Stats.{usec_per_sec}
use crtools.Base.{
  ℕ, zero, suc, ◌+◌, ◌-◌, ◌*◌, ◌^◌, Bool, true, false, not, ◌&&◌, ◌||◌, List, [], ◌∷◌, Res, ok, err,
  bug, ◌>>=◌, ◌>>◌, fail_on, ltb, ◌==◌, if◌then◌else◌, add64, page_size, length, ℤ, pos, negsuc,
  Option, none, some,
}

-- The region of a `vma_area`.
pub record Vma : Type 0 where
  pub start : ℕ
  pub end : ℕ

-- A pointer into a list of regions: one with those behind it, or `&end_vma`.
pub data Cursor : Type 0 where
  vma_at : Vma → List Vma → Cursor
  end_vma : Cursor

-- `vma.start`, with TASK_SIZE for `end_vma`.
abbrev pub start_of : ℕ → Cursor → ℕ
start_of task_size (vma_at v vs) = v.start
start_of task_size end_vma = task_size

-- `if (prev_vma_end < vma.end) prev_vma_end = vma.end;`
abbrev pub past : ℕ → Vma → ℕ
past prev_vma_end v = if ltb prev_vma_end v.end then v.end else prev_vma_end

-- The loop of restorer_get_vma_hint, whose sum of two `long` is compared with a 64-bit `start` without its sign; `bug` stands for a loop that takes more rounds than the fuel.
unfoldable pub vma_hint : ℕ → ℕ → ℕ → ℕ → Cursor → Cursor → Res ℕ
vma_hint zero task_size vma_len prev s t = bug
vma_hint (suc fuel) task_size vma_len prev s t =
    elim (ltb (start_of task_size s) (add64 prev vma_len)) [
      | true ↦ elim s [
        | end_vma ↦ err
        | vma_at v vs ↦ elim vs [
          | [] ↦ vma_hint fuel task_size vma_len prev end_vma t
          | w ∷ ws ↦ vma_hint fuel task_size vma_len (past prev v) (vma_at w ws) t
        ]
      ]
      | false ↦ elim (ltb (start_of task_size t) (add64 prev vma_len)) [
        | true ↦ elim t [
          | end_vma ↦ err
          | vma_at v vs ↦ elim vs [
            | [] ↦ vma_hint fuel task_size vma_len prev s end_vma
            | w ∷ ws ↦ vma_hint fuel task_size vma_len (past prev v) s (vma_at w ws)
          ]
        ]
        | false ↦ ok prev
      ]
    ]

-- A list of regions that is not empty.
pub record Vmas : Type 0 where
  pub head : Vma
  pub rest : List Vma

-- From PAGE_SIZE * 0x10 on. Every round but the last takes a region off a list, or a list to its end.
unfoldable pub restorer_get_vma_hint : ℕ → Vmas → Vmas → ℕ → Res ℕ
restorer_get_vma_hint task_size tgt self vma_len =
    vma_hint (length self.rest + length tgt.rest + 5) task_size vma_len (page_size * 16)
      (vma_at self.head self.rest) (vma_at tgt.head tgt.rest)

-- `struct timeval` and `struct timespec`, with `long` fields as the 64 bits that they have.
pub record Time : Type 0 where
  pub sec : ℕ
  pub frac : ℕ

-- `struct itimerval` and `struct itimerspec`
pub record Timer : Type 0 where
  pub it_interval : Time
  pub it_value : Time

abbrev pub nsec_per_sec : ℕ
nsec_per_sec = 1000000000

abbrev pub valid_time : ℕ → Time → Bool
valid_time per_sec t = ltb t.sec (2 ^ 63) && ltb t.frac per_sec

abbrev pub timeval_valid : Time → Bool
timeval_valid t = valid_time usec_per_sec t

abbrev pub timespec_valid : Time → Bool
timespec_valid t = valid_time nsec_per_sec t

abbrev pub is_zero : Time → Bool
is_zero t = (t.sec == 0) && (t.frac == 0)

abbrev pub no_time : Time
no_time = record { sec = 0; frac = 0 }

-- `ItimerEntry`: the interval and the time that was left.
pub record TimerEntry : Type 0 where
  pub interval : Time
  pub left : Time

-- `it_value`: the interval where no time was left.
abbrev pub fixed : TimerEntry → Time
fixed e = if is_zero e.left then e.interval else e.left

unfoldable pub itimer_restore_and_fix : TimerEntry → Res Timer
itimer_restore_and_fix ie =
    if is_zero ie.interval
    then ok (record { it_interval = no_time; it_value = no_time })
    else (fail_on (not (timeval_valid ie.interval))
        >> fail_on (not (timeval_valid (fixed ie)))
        >> ok (record { it_interval = ie.interval; it_value = fixed ie }))

-- The times of the timer; its other fields are copied.
unfoldable pub posix_timer_restore_and_fix : TimerEntry → Res Timer
posix_timer_restore_and_fix pte =
    fail_on (not (timespec_valid pte.interval))
    >> fail_on (not (timespec_valid (fixed pte)))
    >> ok (record { it_interval = pte.interval; it_value = fixed pte })

pub data Policy : Type 0 where
  sched_other : Policy
  sched_fifo : Policy
  sched_rr : Policy
  sched_batch : Policy
  sched_idle : Policy
  unknown_policy : Policy

pub record RstSchedParam : Type 0 where
  pub policy : Policy
  pub nice : ℤ
  pub prio : ℕ

-- `nice >= -20 && nice <= 19`
abbrev pub nice_in_range : ℤ → Bool
nice_in_range (pos n) = ltb n 20
nice_in_range (negsuc n) = ltb n 20

unfoldable pub validate_sched_parm : RstSchedParam → Bool
validate_sched_parm sp = if not (nice_in_range sp.nice) then false else elim sp.policy [
  | sched_rr ↦ ltb 0 sp.prio && ltb sp.prio 100
  | sched_fifo ↦ ltb 0 sp.prio && ltb sp.prio 100
  | sched_idle ↦ sp.prio == 0
  | sched_other ↦ sp.prio == 0
  | sched_batch ↦ sp.prio == 0
  | unknown_policy ↦ false
]

-- `prio` keeps what it was when the image has no policy.
unfoldable pub prep_sched_info : ℕ → Option RstSchedParam → Res RstSchedParam
unfolding validate_sched_parm
prep_sched_info prio none = ok (record { policy = sched_other; nice = pos 0; prio = prio })
prep_sched_info prio (some tc) = fail_on (not (validate_sched_parm tc)) >> ok tc
