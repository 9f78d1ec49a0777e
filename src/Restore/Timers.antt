-- ===== src/Restore/Timers.antt =====
-- Interval timers and POSIX timers of cr-restore.c after a restore.
use crtools.Base.{
  ℕ, ◌^◌, ◌<◌, arith, ◌≡◌, refl, ◌⊎◌, inl, inr, true, false, Bool-cases, not, Res, ok, err, ◌>>◌,
  fail_on,
}
use crtools.Stats.{usec_per_sec}
use crtools.Restore.{
  Time, Timer, TimerEntry, nsec_per_sec, valid_time, is_zero, fixed, itimer_restore_and_fix,
  posix_timer_restore_and_fix,
}

abbrev pub IsZero : Time → Type 0
IsZero t = (t.sec ≡ 0) × (t.frac ≡ 0)

-- Seconds that are not negative as a `long`, and less than a second of the rest.
abbrev pub IsValid : ℕ → Time → Type 0
IsValid per_sec t = (t.sec < 2 ^ 63) × (t.frac < per_sec)

-- A timer that has been restored from its entry: it runs for the time that was left, or for its interval if
-- none was.
pub record IsRestored (per_sec : ℕ) (e : TimerEntry) (t : Timer) : Type 0 where
  pub interval : t.it_interval ≡ e.interval
  pub valid_interval : IsValid per_sec e.interval
  pub valid_value : IsValid per_sec t.it_value
  pub running : (IsZero e.left → ⊥) → t.it_value ≡ e.left
  pub expired : IsZero e.left → t.it_value ≡ e.interval

pub data TimerResult (per_sec : ℕ) (e : TimerEntry) : Res Timer → Type 0 where
  restored : (t : Timer) → IsRestored per_sec e t → TimerResult per_sec e (ok t)
  refused :
      (IsValid per_sec e.interval → ⊥) ⊎ ((IsZero e.left → ⊥) × (IsValid per_sec e.left → ⊥))
      → TimerResult per_sec e err

is_zero-IsZero : (t : Time) → is_zero t ≡ true → IsZero t
is_zero-IsZero t z = ground arith

is_zero-not : (t : Time) → is_zero t ≡ false → IsZero t → ⊥
is_zero-not t z h = ground arith

valid_time-IsValid : (per_sec : ℕ) (t : Time) → valid_time per_sec t ≡ true → IsValid per_sec t
valid_time-IsValid per_sec t v = ground arith

valid_time-not : (per_sec : ℕ) (t : Time) → valid_time per_sec t ≡ false → IsValid per_sec t → ⊥
valid_time-not per_sec t v h = ground arith

fixed-running : (e : TimerEntry) → (IsZero e.left → ⊥) → fixed e ≡ e.left
fixed-running e n = elim (Bool-cases (is_zero e.left)) [
  | inl z ↦ absurd (n (is_zero-IsZero e.left z))
  | inr z ↦ rw (fixed, z) refl
]

fixed-expired : (e : TimerEntry) → IsZero e.left → fixed e ≡ e.interval
fixed-expired e h = elim (Bool-cases (is_zero e.left)) [
  | inl z ↦ rw (fixed, z) refl
  | inr z ↦ absurd (is_zero-not e.left z h)
]

-- The checks that both functions make.
abbrev checked : ℕ → TimerEntry → Res Timer
checked per_sec e =
    fail_on (not (valid_time per_sec e.interval))
    >> fail_on (not (valid_time per_sec (fixed e)))
    >> ok (record { it_interval = e.interval; it_value = fixed e })

checked-TimerResult : (per_sec : ℕ) (e : TimerEntry) → TimerResult per_sec e (checked per_sec e)
checked-TimerResult per_sec e = elim (Bool-cases (valid_time per_sec e.interval)) [
  | inr a ↦ rw (checked, a) (refused (inl (valid_time-not per_sec e.interval a)))
  | inl a ↦ elim (Bool-cases (valid_time per_sec (fixed e))) [
    | inl b ↦
        rw (checked, a, b)
          (restored (record { it_interval = e.interval; it_value = fixed e })
            (record {
              interval = refl;
              valid_interval = valid_time-IsValid per_sec e.interval a;
              valid_value = valid_time-IsValid per_sec (fixed e) b;
              running = fixed-running e;
              expired = fixed-expired e;
            }))
    | inr b ↦
        rw (checked, a, b)
          (refused (elim (Bool-cases (is_zero e.left)) [
            | inl z ↦
                let f : valid_time per_sec e.interval ≡ false = (rw (fixed, z) at b) in absurd (cc)
            | inr z ↦ inr (is_zero-not e.left z, valid_time-not per_sec e.left (rw (fixed, z) at b))
          ]))
  ]
]

-- posix_timer_restore_and_fix refuses a timer exactly when its interval, or a time left that is not zero, is no
-- valid `timespec`; otherwise the timer gets its interval, and runs for the time that was left, or for the interval
-- if that was zero.
pub posix_timer_restore_and_fix-TimerResult :
    (pte : TimerEntry) → TimerResult nsec_per_sec pte (posix_timer_restore_and_fix pte)
unfolding posix_timer_restore_and_fix
posix_timer_restore_and_fix-TimerResult pte = checked-TimerResult nsec_per_sec pte

-- itimer_restore_and_fix clears a timer whose interval is zero, whatever time it had left, so that one that should
-- expire once is lost. It refuses any other timer exactly when its interval, or a time left that is not zero, is no
-- valid `timeval`; otherwise the timer gets its interval, and runs for the time that was left, or for the interval
-- if that was zero.
pub itimer_restore_and_fix-TimerResult :
    (ie : TimerEntry)
    → (IsZero ie.interval
        × (itimer_restore_and_fix ie
            ≡ ok (record {
              it_interval = record { sec = 0; frac = 0 };
              it_value = record { sec = 0; frac = 0 };
            })))
      ⊎ ((IsZero ie.interval → ⊥) × TimerResult usec_per_sec ie (itimer_restore_and_fix ie))
unfolding itimer_restore_and_fix
itimer_restore_and_fix-TimerResult ie = elim (Bool-cases (is_zero ie.interval)) [
  | inl z ↦ inl (is_zero-IsZero ie.interval z, rw (itimer_restore_and_fix, z) refl)
  | inr z ↦ inr (
    is_zero-not ie.interval z,
    rw (itimer_restore_and_fix, z) (checked-TimerResult usec_per_sec ie),
  )
]
