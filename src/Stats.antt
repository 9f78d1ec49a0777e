-- ===== src/Stats.antt =====
-- stats.c: the counters and the timings of a dump or a restore.
pub mod Elapsed
use crtools.Base.{
  ℕ, suc, ◌+◌, ◌-◌, ◌*◌, ◌/◌, ◌%◌, ◌^◌, Bool, true, false, List, [], ◌∷◌, Option, none, some, Res,
  ok, err, bug, ◌>>=◌, ◌>>◌, bug_on, ltb, leb, ◌==◌, if◌then◌else◌, add64, add32, get_or, set,
}

abbrev pub usec_per_sec : ℕ
usec_per_sec = 1000000

-- `struct timeval`, with non-negative members.
pub record Timeval : Type 0 where
  pub tv_sec : ℕ
  pub tv_usec : ℕ

pub record Timing : Type 0 where
  pub start : Timeval
  pub total : Timeval

-- `struct dump_stats` and `struct restore_stats`
pub record Stats : Type 0 where
  pub timings : List Timing
  pub counts : List ℕ

-- The sizes of the arrays (include/stats.h).
abbrev pub dump_time_nr_stats : ℕ
dump_time_nr_stats = 4

abbrev pub dump_cnt_nr_stats : ℕ
dump_cnt_nr_stats = 3

abbrev pub restore_time_ns_stats : ℕ
restore_time_ns_stats = 2

abbrev pub restore_cnt_nr_stats : ℕ
restore_cnt_nr_stats = 2

-- `dstats` and `rstats`, none for NULL.
pub record StatsPtrs : Type 0 where
  pub dstats : Option Stats
  pub rstats : Option Stats

-- The counters of a dump are `unsigned long`, those of a restore have 32 bits.
unfoldable pub cnt_add : ℕ → ℕ → StatsPtrs → Res StatsPtrs
cnt_add c val p = elim p.dstats [
  | some d ↦
      bug_on (leb dump_cnt_nr_stats c)
      >> ok (record p {
        dstats = some (record d { counts = set d.counts c (add64 (get_or d.counts c 0) val) });
      })
  | none ↦ elim p.rstats [
    | some r ↦
        bug_on (leb restore_cnt_nr_stats c)
        >> ok (record p {
          rstats = some (record r { counts = set r.counts c (add32 (get_or r.counts c 0) val) });
        })
    | none ↦ bug
  ]
]

-- In the source's order: the seconds may be one less for a moment, so that the sum here has the
-- borrow taken at once.
unfoldable pub timeval_accumulate : Timeval → Timeval → Timeval → Timeval
timeval_accumulate from to res =
    let borrow = ltb to.tv_usec from.tv_usec in
    let usec = if borrow then to.tv_usec + usec_per_sec else to.tv_usec in
    let sec = res.tv_sec + to.tv_sec - from.tv_sec - (if borrow then 1 else 0) in
    let total = res.tv_usec + (usec - from.tv_usec) in
    if ltb usec_per_sec total
    then record { tv_sec = sec + 1; tv_usec = total - usec_per_sec }
    else record { tv_sec = sec; tv_usec = total }

abbrev pub no_timing : Timing
no_timing = record {
  start = record { tv_sec = 0; tv_usec = 0 };
  total = record { tv_sec = 0; tv_usec = 0 };
}

unfoldable pub get_timing : ℕ → StatsPtrs → Res Timing
get_timing t p = elim p.dstats [
  | some d ↦ bug_on (leb dump_time_nr_stats t) >> ok (get_or d.timings t no_timing)
  | none ↦ elim p.rstats [
    | some r ↦ bug_on (leb restore_time_ns_stats t) >> ok (get_or r.timings t no_timing)
    | none ↦ bug
  ]
]

-- A write through the pointer that `get_timing` returns.
abbrev pub put_timing : ℕ → Timing → StatsPtrs → StatsPtrs
put_timing t tm p = elim p.dstats [
  | some d ↦ record p { dstats = some (record d { timings = set d.timings t tm }) }
  | none ↦ elim p.rstats [
    | some r ↦ record p { rstats = some (record r { timings = set r.timings t tm }) }
    | none ↦ p
  ]
]

-- `now` is what gettimeofday gives.
unfoldable pub timing_start : ℕ → Timeval → StatsPtrs → Res StatsPtrs
unfolding get_timing
timing_start t now p = do tm ← get_timing t p; ok (put_timing t (record tm { start = now }) p)

unfoldable pub timing_stop : ℕ → Timeval → StatsPtrs → Res StatsPtrs
unfolding get_timing timeval_accumulate
timing_stop t now p = do
  tm ← get_timing t p
  ok (put_timing t (record tm { total = timeval_accumulate tm.start now tm.total }) p)

-- `*to` is a `u_int32_t`.
unfoldable pub encode_time : ℕ → StatsPtrs → Res ℕ
unfolding get_timing
encode_time t p = do
  tm ← get_timing t p
  ok ((tm.total.tv_sec * usec_per_sec + tm.total.tv_usec) % 2 ^ 32)

-- `StatsEntry` (protobuf/stats.proto)
pub data StatsEntry : Type 0 where
  dump_stats :
      (freezing_time frozen_time memdump_time memwrite_time : ℕ)
      (pages_scanned pages_skipped_parent pages_written : ℕ)
      → StatsEntry
  restore_stats :
      (forking_time restore_time : ℕ) (pages_compared pages_skipped_cow : ℕ) → StatsEntry

-- DUMP_STATS and RESTORE_STATS
abbrev pub dump_stats_id : ℕ
dump_stats_id = 1

abbrev pub restore_stats_id : ℕ
restore_stats_id = 2

-- The `int` of a counter, extended with its sign to the 64 bits of the image.
abbrev pub atomic_read : ℕ → ℕ
atomic_read v = if ltb v (2 ^ 31) then v else v + (2 ^ 64 - 2 ^ 32)

-- What is written to the image: none where `what` is neither of the two, and `bug` for a use of a
-- NULL pointer.
unfoldable pub write_stats : ℕ → StatsPtrs → Res (Option StatsEntry)
unfolding encode_time
write_stats what p =
    if what == dump_stats_id
    then (do
      freezing ← encode_time 0 p
      frozen ← encode_time 1 p
      memdump ← encode_time 2 p
      memwrite ← encode_time 3 p
      elim p.dstats [
        | none ↦ bug
        | some d ↦ ok (
            some (
              dump_stats freezing frozen memdump memwrite (get_or d.counts 0 0)
                (get_or d.counts 1 0) (get_or d.counts 2 0)))
      ])
    else if what == restore_stats_id
    then (elim p.rstats [
      | none ↦ bug
      | some r ↦ do
        forking ← encode_time 0 p
        restore ← encode_time 1 p
        ok (
            some (
              restore_stats forking restore (atomic_read (get_or r.counts 0 0))
                (atomic_read (get_or r.counts 1 0))))
    ])
    else ok none
