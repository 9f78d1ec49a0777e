-- ===== src/Mem/Rover.antt =====
-- The search of page_in_parent (mem.c), which goes on from where the last one stopped, against a
-- search of the whole parent pagemap.
use crtools.Base.{
  ℕ, zero, suc, ◌+◌, ◌-◌, ◌^◌, ◌≤◌, ◌<◌, ◌≡◌, refl, sym, ap, subst, ◌∙◌, ◌⊎◌, inl, inr, Bool, true,
  false, not, ◌&&◌, ◌||◌, List, [], ◌∷◌, Bool-cases, ltb, leb, ltb→lt, leb→le, not_leb, length-take,
  drop_all, arith, bit, length, get_or, take, drop, drop-take_cons,
}
use crtools.Iov.{Iovec, iov_end}
use crtools.Mem.{MemSnapCtx, rove, page_in_parent, pme_soft_dirty}

-- Whether an entry of the list holds the address.
abbrev pub covers : List Iovec → ℕ → Bool
covers [] v = false
covers (iov ∷ iovs) v = (leb iov.iov_base v && ltb v (iov.iov_base + iov.iov_len)) || covers iovs v

-- Entries in ascending order, from `lo` on, that do not overlap and end below 2^64.
abbrev pub Ascends : ℕ → List Iovec → Type 0
Ascends lo [] = Unit {0}
Ascends lo (iov ∷ iovs) =
    (lo ≤ iov.iov_base)
    × (iov.iov_base + iov.iov_len < 2 ^ 64)
    × Ascends (iov.iov_base + iov.iov_len) iovs

-- The parent's pagemap, and what the rover has not yet passed of it.
abbrev pub entries : MemSnapCtx → List Iovec
entries s = take s.nr_iovs s.iovs

abbrev pub ahead : MemSnapCtx → List Iovec
ahead s = drop s.rover (entries s)

-- The rover is at an entry, and no address from `v` on lies in an entry that it has passed.
pub record Searching (s : MemSnapCtx) (v : ℕ) : Type 0 where
  pub inside : s.rover < s.nr_iovs
  pub room : s.nr_iovs ≤ length s.iovs
  pub sorted : Ascends 0 (ahead s)
  pub passed : (w : ℕ) → v ≤ w → covers (entries s) w ≡ covers (ahead s) w

Ascends-le : (m n : ℕ) (iovs : List Iovec) → m ≤ n → Ascends n iovs → Ascends m iovs
Ascends-le m n [] h a = tt
Ascends-le m n (iov ∷ iovs) h a = (omega arith, a.1, a.2)

-- An address below the first entry is in none.
covers_below : (iovs : List Iovec) (lo v : ℕ) → v < lo → Ascends lo iovs → covers iovs v ≡ false
covers_below [] lo v h a = refl
covers_below (iov ∷ iovs) lo v h a =
    ground (arith, covers_below iovs (iov.iov_base + iov.iov_len) v, a.0)

hits :
    (x : Iovec) (rest : List Iovec) (v : ℕ)
    → x.iov_base + x.iov_len < 2 ^ 64
    → ltb v x.iov_base ≡ false
    → ltb v (iov_end x) ≡ true
    → covers (x ∷ rest) v ≡ true
hits x rest v b from hit = ground arith

misses :
    (x : Iovec) (rest : List Iovec) (v : ℕ)
    → x.iov_base + x.iov_len < 2 ^ 64
    → ltb v x.iov_base ≡ false
    → ltb v (iov_end x) ≡ false
    → covers (x ∷ rest) v ≡ covers rest v
misses x rest v b from miss = ground arith

ended :
    (x : Iovec) (v : ℕ)
    → x.iov_base + x.iov_len < 2 ^ 64
    → ltb v (iov_end x) ≡ false
    → x.iov_base + x.iov_len ≤ v
ended x v b miss = ground arith

module _ (fresh : Iovec) where
  abbrev at_rover : MemSnapCtx → Iovec
  at_rover s = get_or s.iovs s.rover fresh

  abbrev next : MemSnapCtx → MemSnapCtx
  next s = record s { rover = s.rover + 1 }

  ahead_cons :
      (s : MemSnapCtx)
      → s.rover < s.nr_iovs
      → s.nr_iovs ≤ length s.iovs
      → ahead s ≡ at_rover s ∷ ahead (next s)
  ahead_cons s h l =
      let e : s.rover + 1 ≡ suc s.rover = omega arith in
      rw e (drop-take_cons s.iovs s.nr_iovs s.rover fresh h l)

  -- Passing an entry that ends at or below `v`.
  next-Searching :
      (s : MemSnapCtx) (v : ℕ)
      → Searching s v
      → (at_rover s).iov_base + (at_rover s).iov_len ≤ v
      → s.rover + 1 < s.nr_iovs
      → Searching (next s) v
  next-Searching s v q h l = record {
    inside = l;
    room = q.room;
    sorted = Ascends-le 0 _ (ahead (next s)) (omega arith) whole.2;
    passed = λ w hw. q.passed w hw ∙ ap (λ is. covers is w) cons ∙ gone w hw;
  }
    where
      cons : ahead s ≡ at_rover s ∷ ahead (next s)
      cons = ahead_cons s q.inside q.room

      whole : Ascends 0 (at_rover s ∷ ahead (next s))
      whole = subst (Ascends 0) cons q.sorted

      gone : (w : ℕ) → v ≤ w → covers (at_rover s ∷ ahead (next s)) w ≡ covers (ahead (next s)) w
      gone w hw = ground arith

  -- What the loop finds from a rover that is searching, and where it leaves the rover.
  pub record Roved (s : MemSnapCtx) (v : ℕ) (r : Bool × MemSnapCtx) : Type 0 where
    pub found : r.0 ≡ covers (ahead s) v
    pub same : (r.1.iovs ≡ s.iovs) × (r.1.nr_iovs ≡ s.nr_iovs)
    pub goes_on : Searching r.1 v ⊎ ((r.0 ≡ false) × (s.nr_iovs ≤ r.1.rover))

  rove-Roved :
      (n v : ℕ) (s : MemSnapCtx)
      → Searching s v
      → s.nr_iovs < s.rover + n
      → Roved s v (rove fresh n v s)
  unfolding rove
  rove-Roved zero v s q f = absurd (omega (arith, q.inside))
  rove-Roved (suc n) v s q f = elim (Bool-cases (ltb v x.iov_base)) [
    | inl below ↦ rw below (record {
      found = sym (
          ap (λ is. covers is v) cons
          ∙ covers_below (x ∷ ahead (next s)) x.iov_base v (ltb→lt _ _ below)
              (omega arith, whole.1, whole.2));
      same = (refl, refl);
      goes_on = inl q;
    })
    | inr from ↦ elim (Bool-cases (ltb v (iov_end x))) [
      | inl hit ↦
          rw (from, hit)
            (record {
              found =
                  sym (ap (λ is. covers is v) cons ∙ hits x (ahead (next s)) v whole.1 from hit);
              same = (refl, refl);
              goes_on = inl q;
            })
      | inr miss ↦ elim (Bool-cases (leb s.nr_iovs (s.rover + 1))) [
        | inl last ↦
            rw (from, miss, last)
              (record {
                found = sym (
                    ap (λ is. covers is v) cons
                    ∙ misses x (ahead (next s)) v whole.1 from miss
                    ∙ ap (λ is. covers is v)
                        (drop_all (entries s) (s.rover + 1)
                          (omega (arith, length-take s.nr_iovs s.iovs, leb→le _ _ last))));
                same = (refl, refl);
                goes_on = inr (refl, leb→le _ _ last);
              })
        | inr more ↦
            rw (from, miss, more)
              (later
                (rove-Roved n v (next s)
                  (next-Searching s v q (ended x v whole.1 miss) (not_leb _ _ more)) (omega arith))
                miss from)
      ]
    ]
  ]
    where
      x : Iovec
      x = at_rover s

      cons : ahead s ≡ x ∷ ahead (next s)
      cons = ahead_cons s q.inside q.room

      whole : Ascends 0 (x ∷ ahead (next s))
      whole = subst (Ascends 0) cons q.sorted

      later :
          Roved (next s) v (rove fresh n v (next s))
          → ltb v (iov_end x) ≡ false
          → ltb v x.iov_base ≡ false
          → Roved s v (rove fresh n v (next s))
      later r miss from = record {
        found =
            r.found
            ∙ sym (ap (λ is. covers is v) cons ∙ misses x (ahead (next s)) v whole.1 from miss);
        same = r.same;
        goes_on = r.goes_on;
      }

  -- While the rover is at an entry, the entries from there on ascend without overlapping, and no address from this one
  -- on is in an entry that the rover has passed, `page_in_parent` finds a page exactly when it is not soft-dirty and
  -- an entry of the parent's pagemap holds its address, changes nothing but the rover, and leaves
  -- the rover fit for any address from this one on, unless it found nothing and ran past the end.
  pub page_in_parent-covers :
      (v pme : ℕ) (s : MemSnapCtx)
      → Searching s v
      → let (found, s') = page_in_parent fresh v pme s in
        (found ≡ (not (bit pme pme_soft_dirty) && covers (entries s) v))
        × (s'.iovs ≡ s.iovs)
        × (s'.nr_iovs ≡ s.nr_iovs)
        × (Searching s' v
            ⊎ ((bit pme pme_soft_dirty ≡ false) × (found ≡ false) × (s.nr_iovs ≤ s'.rover)))
  unfolding page_in_parent
  page_in_parent-covers v pme s q = elim (Bool-cases (bit pme pme_soft_dirty)) [
    | inl dirty ↦ rw dirty (refl, refl, refl, inl q)
    | inr clean ↦
        let r = rove-Roved (suc (s.nr_iovs - s.rover)) v s q (omega (arith, q.inside)) in
        rw clean (
          r.found ∙ sym (q.passed v (omega arith)),
          r.same.0,
          r.same.1,
          elim r.goes_on [ inl fit ↦ inl fit | inr (f, past) ↦ inr (refl, f, past) ],
        )
  ]
