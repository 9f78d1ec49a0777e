-- ===== src/Lock/Exclusion.antt =====
-- Mutual exclusion and the absence of lost wake-ups for the mutex of include/lock.h.
use crtools.Base.{
  ℕ, zero, suc, ◌+◌, ◌^◌, ◌≤◌, ◌<◌, ◌≡◌, ◌≢◌, refl, sym, ◌⊎◌, inl, inr, List, [], ◌∷◌, some,
  get_elem?, set, All, arith,
}
use crtools.Lock.{
  Thread, outside, trying, waiting, asleep, holding, waking, Mutex, mutex_init, inc_return, goes,
  Step, enter, take_it, miss, sleep, would_block, return_early, release, wake, wake_none, Run,
  start, then,
}

abbrev pub weigh : (Thread → ℕ) → List Thread → ℕ
weigh w [] = 0
weigh w (t ∷ ts) = w t + weigh w ts

abbrev pub is_holding : Thread → ℕ
is_holding holding = 1
is_holding _ = 0

abbrev pub is_asleep : Thread → ℕ
is_asleep asleep = 1
is_asleep _ = 0

-- A thread that will take another step by itself.
abbrev pub is_active : Thread → ℕ
is_active outside = 0
is_active asleep = 0
is_active trying = 1
is_active (waiting _) = 1
is_active holding = 1
is_active waking = 1

-- A thread that was about to wait for `c` had found the mutex taken.
abbrev pub HasMissed : Thread → Type 0
HasMissed (waiting c) = 1 < c
HasMissed outside = Unit {0}
HasMissed asleep = Unit {0}
HasMissed trying = Unit {0}
HasMissed holding = Unit {0}
HasMissed waking = Unit {0}

weigh-set :
    (w : Thread → ℕ) (ts : List Thread) (i : ℕ) (t u : Thread)
    → get_elem? ts i ≡ some t
    → weigh w (set ts i u) + w t ≡ weigh w ts + w u
weigh-set w [] i t u e = absurd cc
weigh-set w (x ∷ ts) zero t u e = let x-t : x ≡ t = cc in rw x-t (omega arith)
weigh-set w (x ∷ ts) (suc i) t u e = let ih = weigh-set w ts i t u e in omega (arith, ih)

weigh-get :
    (w : Thread → ℕ) (ts : List Thread) (i : ℕ) (t : Thread)
    → get_elem? ts i ≡ some t
    → w t ≤ weigh w ts
weigh-get w [] i t e = absurd cc
weigh-get w (x ∷ ts) zero t e = let x-t : x ≡ t = cc in rw x-t (omega arith)
weigh-get w (x ∷ ts) (suc i) t e = let ih = weigh-get w ts i t e in omega (arith, ih)

All-set :
    (ts : List Thread) (i : ℕ) (u : Thread)
    → All HasMissed ts
    → HasMissed u
    → All HasMissed (set ts i u)
All-set [] i u p q = tt
All-set (x ∷ ts) zero u p q = (q, p.1)
All-set (x ∷ ts) (suc i) u p q = (p.0, All-set ts i u p.1 q)

All-get :
    (ts : List Thread) (i : ℕ) (t : Thread)
    → All HasMissed ts
    → get_elem? ts i ≡ some t
    → HasMissed t
All-get [] i t p e = absurd cc
All-get (x ∷ ts) zero t p e = let x-t : x ≡ t = cc in rw (sym x-t) p.0
All-get (x ∷ ts) (suc i) t p e = All-get ts i t p.1 e

holding_active : (ts : List Thread) → weigh is_holding ts ≤ weigh is_active ts
holding_active [] = omega arith
holding_active (outside ∷ ts) = let ih = holding_active ts in omega (arith, ih)
holding_active (trying ∷ ts) = let ih = holding_active ts in omega (arith, ih)
holding_active (waiting c ∷ ts) = let ih = holding_active ts in omega (arith, ih)
holding_active (asleep ∷ ts) = let ih = holding_active ts in omega (arith, ih)
holding_active (holding ∷ ts) = let ih = holding_active ts in omega (arith, ih)
holding_active (waking ∷ ts) = let ih = holding_active ts in omega (arith, ih)

not_asleep : (ts : List Thread) → ((j : ℕ) → get_elem? ts j ≢ some asleep) → weigh is_asleep ts ≡ 0
not_asleep [] n = refl
not_asleep (outside ∷ ts) n = let ih = not_asleep ts (λ j. n (suc j)) in omega (arith, ih)
not_asleep (trying ∷ ts) n = let ih = not_asleep ts (λ j. n (suc j)) in omega (arith, ih)
not_asleep (waiting c ∷ ts) n = let ih = not_asleep ts (λ j. n (suc j)) in omega (arith, ih)
not_asleep (asleep ∷ ts) n = absurd (n 0 refl)
not_asleep (holding ∷ ts) n = let ih = not_asleep ts (λ j. n (suc j)) in omega (arith, ih)
not_asleep (waking ∷ ts) n = let ih = not_asleep ts (λ j. n (suc j)) in omega (arith, ih)

-- What holds after `n` steps: the mutex is taken if and only if one thread holds it, and whoever is
-- asleep has a thread to wait for.
pub record IsKept (n : ℕ) (m : Mutex) : Type 0 where
  pub counted : m.raw ≤ n
  pub taken :
      ((m.raw ≡ 0) × (weigh is_holding m.threads ≡ 0))
      ⊎ ((0 < m.raw) × (weigh is_holding m.threads ≡ 1))
  pub missed : All HasMissed m.threads
  pub awaited : (weigh is_asleep m.threads ≡ 0) ⊎ (0 < weigh is_active m.threads)

module _ {n : ℕ} (m : Mutex) (k : IsKept n m) (small : n + 1 < 2 ^ 32) where
  -- A step that neither takes nor frees the mutex and leaves a thread that goes on.
  moved :
      (i : ℕ) (t u : Thread)
      → get_elem? m.threads i ≡ some t
      → is_holding t ≡ 0
      → is_holding u ≡ 0
      → is_active u ≡ 1
      → HasMissed u
      → IsKept (suc n) (goes m m.raw i u)
  moved i t u e ht hu au q = record {
    counted = let c = k.counted in omega (arith, c);
    taken =
        let wh = weigh-set is_holding m.threads i t u e in
        elim k.taken [
          | inl p ↦ inl (p.0, let p1 = p.1 in omega (arith, p1, wh, ht, hu))
          | inr p ↦ inr (p.0, let p1 = p.1 in omega (arith, p1, wh, ht, hu))
        ];
    missed = All-set m.threads i u k.missed q;
    awaited = inr (
        let wa = weigh-set is_active m.threads i t u e in
        let g = weigh-get is_active m.threads i t e in omega (arith, wa, g, au));
  }

  -- The increment of a mutex that is free.
  taken_over :
      (i : ℕ)
      → get_elem? m.threads i ≡ some trying
      → inc_return m.raw ≡ 1
      → IsKept (suc n) (goes m (inc_return m.raw) i holding)
  taken_over i e one =
      let c = k.counted in
      let wa = weigh-set is_active m.threads i trying holding e in
      let g = weigh-get is_active m.threads i trying e in
      record {
        counted = omega (arith, one);
        taken =
            let wh = weigh-set is_holding m.threads i trying holding e in
            elim k.taken [
              | inl p ↦ inr (omega (arith, one), let p1 = p.1 in omega (arith, p1, wh))
              | inr p ↦ absurd (let p0 = p.0 in omega (arith, p0, one, c, small))
            ];
        missed = All-set m.threads i holding k.missed tt;
        awaited = inr (omega (arith, wa, g));
      }

  -- The increment of a mutex that is taken.
  missed_it :
      (i : ℕ)
      → get_elem? m.threads i ≡ some trying
      → inc_return m.raw ≢ 1
      → IsKept (suc n) (goes m (inc_return m.raw) i (waiting (inc_return m.raw)))
  missed_it i e more =
      let c = k.counted in
      let wa = weigh-set is_active m.threads i trying (waiting (inc_return m.raw)) e in
      let g = weigh-get is_active m.threads i trying e in
      let wh = weigh-set is_holding m.threads i trying (waiting (inc_return m.raw)) e in
      record {
        counted = omega (arith, c, small);
        taken = elim k.taken [
          | inl p ↦ absurd (let p0 = p.0 in more (omega (arith, p0)))
          | inr p ↦ inr (omega (arith, c, small), let p1 = p.1 in omega (arith, p1, wh))
        ];
        missed = All-set m.threads i (waiting (inc_return m.raw)) k.missed (elim k.taken [
          | inl p ↦ absurd (let p0 = p.0 in more (omega (arith, p0)))
          | inr p ↦ let p0 = p.0 in omega (arith, c, small, p0)
        ]);
        awaited = inr (omega (arith, wa, g));
      }

  -- A thread goes to sleep only while another one holds the mutex.
  slept :
      (i c : ℕ)
      → get_elem? m.threads i ≡ some (waiting c)
      → m.raw ≡ c
      → IsKept (suc n) (goes m m.raw i asleep)
  slept i c e same =
      let b = k.counted in
      let high = All-get m.threads i (waiting c) k.missed e in
      let wh = weigh-set is_holding m.threads i (waiting c) asleep e in
      let one : weigh is_holding (set m.threads i asleep) ≡ 1 = elim k.taken [
        | inl p ↦ absurd (let p0 = p.0 in omega (arith, p0, same, high))
        | inr p ↦ let p1 = p.1 in omega (arith, p1, wh)
      ] in
      record {
        counted = omega (arith, b);
        taken = inr (omega (arith, same, high), one);
        missed = All-set m.threads i asleep k.missed tt;
        awaited = inr (let h = holding_active (set m.threads i asleep) in omega (arith, h, one));
      }

  released : (i : ℕ) → get_elem? m.threads i ≡ some holding → IsKept (suc n) (goes m 0 i waking)
  released i e =
      let wh = weigh-set is_holding m.threads i holding waking e in
      let wa = weigh-set is_active m.threads i holding waking e in
      let ga = weigh-get is_active m.threads i holding e in
      let g = weigh-get is_holding m.threads i holding e in
      record {
        counted = omega arith;
        taken = inl (
          refl,
          elim k.taken [
            | inl p ↦ let p1 = p.1 in omega (arith, p1, wh, g)
            | inr p ↦ let p1 = p.1 in omega (arith, p1, wh)
          ],
        );
        missed = All-set m.threads i waking k.missed tt;
        awaited = inr (omega (arith, wa, ga));
      }

  woken :
      (i j : ℕ)
      → get_elem? m.threads i ≡ some waking
      → get_elem? (set m.threads i outside) j ≡ some asleep
      → IsKept (suc n) (goes (goes m m.raw i outside) m.raw j trying)
  woken i j e f =
      let ts = set m.threads i outside in
      let b = k.counted in
      let wh = weigh-set is_holding m.threads i waking outside e in
      let wh2 = weigh-set is_holding ts j asleep trying f in
      let wa2 = weigh-set is_active ts j asleep trying f in
      record {
        counted = omega (arith, b);
        taken = elim k.taken [
          | inl p ↦ inl (p.0, let p1 = p.1 in omega (arith, p1, wh, wh2))
          | inr p ↦ inr (p.0, let p1 = p.1 in omega (arith, p1, wh, wh2))
        ];
        missed = All-set ts j trying (All-set m.threads i outside k.missed tt) tt;
        awaited = inr (omega (arith, wa2));
      }

  woken_none :
      (i : ℕ)
      → get_elem? m.threads i ≡ some waking
      → ((j : ℕ) → get_elem? m.threads j ≢ some asleep)
      → IsKept (suc n) (goes m m.raw i outside)
  woken_none i e none' =
      let b = k.counted in
      let wh = weigh-set is_holding m.threads i waking outside e in
      let ws = weigh-set is_asleep m.threads i waking outside e in
      let z = not_asleep m.threads none' in
      record {
        counted = omega (arith, b);
        taken = elim k.taken [
          | inl p ↦ inl (p.0, let p1 = p.1 in omega (arith, p1, wh))
          | inr p ↦ inr (p.0, let p1 = p.1 in omega (arith, p1, wh))
        ];
        missed = All-set m.threads i outside k.missed tt;
        awaited = inl (omega (arith, ws, z));
      }

Step-IsKept :
    {n : ℕ} (m m' : Mutex) (i : ℕ) → IsKept n m → n + 1 < 2 ^ 32 → Step m i m' → IsKept (suc n) m'
Step-IsKept m _ i k small (enter e) = moved m k small i outside trying e refl refl refl tt
Step-IsKept m _ i k small (take_it e one) = taken_over m k small i e one
Step-IsKept m _ i k small (miss e more) = missed_it m k small i e more
Step-IsKept m _ i k small (sleep c e same) = slept m k small i c e same
Step-IsKept m _ i k small (would_block c e _) =
    moved m k small i (waiting c) trying e refl refl refl tt
Step-IsKept m _ i k small (return_early e) = moved m k small i asleep trying e refl refl refl tt
Step-IsKept m _ i k small (release e) = released m k small i e
Step-IsKept m _ i k small (wake j e f) = woken m k small i j e f
Step-IsKept m _ i k small (wake_none e none') = woken_none m k small i e none'

All-outside :
    (ts : List Thread)
    → All (λ t. t ≡ outside) ts
    → (weigh is_holding ts ≡ 0) × (weigh is_asleep ts ≡ 0) × All HasMissed ts
All-outside [] p = (refl, refl, tt)
All-outside (t ∷ ts) p =
    let ih = All-outside ts p.1 in
    let h = ih.0 in let a = ih.1 in rw p.0 (omega (arith, h), omega (arith, a), (tt, ih.2))

Run-IsKept : (m0 : Mutex) {n : ℕ} (m : Mutex) → IsKept 0 m0 → n < 2 ^ 32 → Run m0 n m → IsKept n m
Run-IsKept m0 _ k small start = k
Run-IsKept m0 m k small (then {n} {m1} i before s) =
    Step-IsKept m1 m i (Run-IsKept m0 m1 k (omega (arith, small)) before) (omega (arith, small)) s

initial-IsKept : (ts : List Thread) → All (λ t. t ≡ outside) ts → IsKept 0 (mutex_init ts)
initial-IsKept ts p =
    let a = All-outside ts p in
    record { counted = omega arith; taken = inl (refl, a.0); missed = a.2; awaited = inl a.1 }

-- In a run of fewer than 2^32 steps from threads that are all outside, the mutex is zero and nobody holds it, or
-- it is not zero and exactly one thread holds it.
pub mutex_lock-exclusive :
    (ts : List Thread) (n : ℕ) (m : Mutex)
    → All (λ t. t ≡ outside) ts
    → n < 2 ^ 32
    → Run (mutex_init ts) n m
    → ((m.raw ≡ 0) × (weigh is_holding m.threads ≡ 0))
      ⊎ ((0 < m.raw) × (weigh is_holding m.threads ≡ 1))
mutex_lock-exclusive ts n m p small r =
    (Run-IsKept (mutex_init ts) m (initial-IsKept ts p) small r).taken

-- In a run of fewer than 2^32 steps from threads that are all outside no wake-up is lost: if a thread
-- is asleep in `mutex_lock`, then some thread holds the mutex or is on its way through `mutex_lock` or
-- `mutex_unlock`, so that not all threads are asleep or outside.
pub mutex_unlock-awaited :
    (ts : List Thread) (n : ℕ) (m : Mutex)
    → All (λ t. t ≡ outside) ts
    → n < 2 ^ 32
    → Run (mutex_init ts) n m
    → 0 < weigh is_asleep m.threads
    → 0 < weigh is_active m.threads
mutex_unlock-awaited ts n m p small r h =
    elim (Run-IsKept (mutex_init ts) m (initial-IsKept ts p) small r).awaited [
      | inl z ↦ absurd (omega (arith, z, h))
      | inr a ↦ a
    ]
