-- ===== src/Stats/Elapsed.antt =====
-- The time between timing_start and timing_stop (stats.c).
use crtools.Base.{
  ℕ, zero, suc, ◌+◌, ◌-◌, ◌*◌, ◌%◌, ◌^◌, ◌≤◌, ◌<◌, ◌≡◌, ◌≢◌, refl, sym, ap, ◌∙◌, false, List, [],
  ◌∷◌, some, ok, ◌>>=◌, leb, length, get_or, set, get_or-set_self, length-set, arith,
}
use crtools.Stats.{
  usec_per_sec, Timeval, Timing, Stats, StatsPtrs, dump_time_nr_stats, no_timing,
  timeval_accumulate, get_timing, timing_start, timing_stop, encode_time,
}

abbrev pub usecs : Timeval → ℕ
usecs t = t.tv_sec * usec_per_sec + t.tv_usec

-- `timeval_accumulate` adds the time from `from` to `to`, in microseconds, where both are normalised
-- and `to` is not earlier; the microseconds of the sum are at most one million, if those before were.
pub timeval_accumulate-usecs :
    (from to res : Timeval)
    → from.tv_usec < usec_per_sec
    → to.tv_usec < usec_per_sec
    → usecs from ≤ usecs to
    → res.tv_usec ≤ usec_per_sec
    → (usecs (timeval_accumulate from to res) ≡ usecs res + (usecs to - usecs from))
      × ((timeval_accumulate from to res).tv_usec ≤ usec_per_sec)
unfolding timeval_accumulate
timeval_accumulate-usecs from to res f t l r = (ground arith, ground arith)

get_or-set_other :
    (xs : List Timing) (i j : ℕ) (v d : Timing) → j ≢ i → get_or (set xs i v) j d ≡ get_or xs j d
get_or-set_other [] i j v d n = refl
get_or-set_other (x ∷ xs) zero zero v d n = absurd (n refl)
get_or-set_other (x ∷ xs) zero (suc j) v d n = refl
get_or-set_other (x ∷ xs) (suc i) zero v d n = refl
get_or-set_other (x ∷ xs) (suc i) (suc j) v d n = get_or-set_other xs i j v d (λ e. n (ap suc e))

-- A dump that keeps its statistics: the four timings, each with normalised times.
pub record IsDump (p : StatsPtrs) (d : Stats) : Type 0 where
  pub kept : p.dstats ≡ some d
  pub sized : length d.timings ≡ dump_time_nr_stats

started :
    (t : ℕ) (a : Timeval) (p : StatsPtrs) (d : Stats)
    → IsDump p d
    → t < dump_time_nr_stats
    → timing_start t a p
      ≡ ok (record p {
        dstats = some (record d {
          timings = set d.timings t (record (get_or d.timings t no_timing) { start = a });
        });
      })
unfolding timing_start get_timing
started t a p d i h = let e : leb dump_time_nr_stats t ≡ false = ground arith in rw (i.kept, e)

stopped :
    (t : ℕ) (b : Timeval) (p : StatsPtrs) (d : Stats)
    → p.dstats ≡ some d
    → t < dump_time_nr_stats
    → timing_stop t b p
      ≡ ok (record p {
        dstats = some (record d {
          timings = set d.timings t (record (get_or d.timings t no_timing) {
            total =
                timeval_accumulate
                  (get_or d.timings t no_timing).start
                  b
                  (get_or d.timings t no_timing).total;
          });
        });
      })
unfolding timing_stop get_timing
stopped t b p d k h = let e : leb dump_time_nr_stats t ≡ false = ground arith in rw (k, e)

encoded :
    (t : ℕ) (p : StatsPtrs) (d : Stats)
    → p.dstats ≡ some d
    → t < dump_time_nr_stats
    → encode_time t p ≡ ok (usecs (get_or d.timings t no_timing).total % 2 ^ 32)
unfolding encode_time get_timing
encoded t p d k h = let e : leb dump_time_nr_stats t ≡ false = ground arith in rw (k, e)

abbrev pub total_of : ℕ → Stats → Timeval
total_of t d = (get_or d.timings t no_timing).total

-- What a timed section changes in what `encode_time` reports.
pub record Timed (t elapsed : ℕ) (d : Stats) (p p' : StatsPtrs) : Type 0 where
  pub counted : encode_time t p' ≡ ok ((usecs (total_of t d) + elapsed) % 2 ^ 32)
  pub others : (s : ℕ) → s ≢ t → s < dump_time_nr_stats → encode_time s p' ≡ encode_time s p

-- In a dump, `timing_start t` at `a` followed by `timing_stop t` at a `b` that is not earlier succeeds, and
-- `encode_time t` then reports the time of `t` so far and that from `a` to `b`, in microseconds modulo 2^32, and
-- for every other timing what it reported before.
pub timing_stop-Timed :
    (t : ℕ) (a b : Timeval) (p : StatsPtrs) (d : Stats)
    → IsDump p d
    → t < dump_time_nr_stats
    → a.tv_usec < usec_per_sec
    → b.tv_usec < usec_per_sec
    → usecs a ≤ usecs b
    → (total_of t d).tv_usec ≤ usec_per_sec
    → (p' : StatsPtrs) × ((timing_start t a p >>= timing_stop t b) ≡ ok p')
      × Timed t (usecs b - usecs a) d p p'
timing_stop-Timed t a b p d i h na nb l r =
    let tm = record (get_or d.timings t no_timing) { start = a } in
    let d1 = record d { timings = set d.timings t tm } in
    let p1 = record p { dstats = some d1 } in
    let own : get_or (set d.timings t tm) t no_timing ≡ tm =
      get_or-set_self d.timings t tm no_timing (let z = i.sized in omega (arith, z)) in
    let tm2 = record (get_or d1.timings t no_timing) {
      total =
          timeval_accumulate (get_or d1.timings t no_timing).start b
            (get_or d1.timings t no_timing).total;
    } in
    let d2 = record d1 { timings = set d1.timings t tm2 } in
    let p2 = record p { dstats = some d2 } in
    let own2 : get_or (set d1.timings t tm2) t no_timing ≡ tm2 =
      get_or-set_self d1.timings t tm2 no_timing
        (let z = i.sized in omega (arith, z, length-set d.timings t tm)) in
    (
      p2,
      ap (λ m. m >>= timing_stop t b) (started t a p d i h) ∙ stopped t b p1 d1 refl h,
      record {
        counted =
            encoded t p2 d2 refl h
            ∙ ap ok (
                ap (λ x. usecs x % 2 ^ 32)
                  (ap (λ x. x.total) own2 ∙ ap (λ x. timeval_accumulate x.start b x.total) own)
                ∙ ap (λ u. u % 2 ^ 32) (timeval_accumulate-usecs a b (total_of t d) na nb l r).0);
        others = λ s n hs.
            encoded s p2 d2 refl hs
            ∙ ap (λ x. ok (usecs x.total % 2 ^ 32))
                (get_or-set_other d1.timings t s tm2 no_timing n
                  ∙ get_or-set_other d.timings t s tm no_timing n)
            ∙ sym (encoded s p d i.kept hs);
      },
    )
