-- ===== src/Dedup/Loop.antt =====
-- The loop of dedup_one_iovec (cr-dedup.c), and how it comes back.
use crtools.Base.{
  ℕ, suc, ◌≤◌, ◌≡◌, Bool, true, false, List, [], ◌∷◌, none, Res, ok, ◌>>=◌, length, arith,
}
use crtools.PageRead.{Level}
use crtools.PageRead.Image.{Image, locate}
use crtools.PageRead.Gaps.{Sought}
use crtools.Dedup.{Hole, Deduped, after_hole}
use crtools.Dedup.Punch.{covered, IsOwn, Punched, only-append, Punched-append}

module _ (fallocates : Hole → Bool) (hp : Bool) (img : Image) where
  -- Why -1 is returned: fallocate failed, or the snapshot holds nothing from an address before `stop` on.
  pub data Failed (a stop : ℕ) : Type 0 where
    refused : (h : Hole) → fallocates h ≡ false → Failed a stop
    past_end :
        (off : ℕ)
        → a ≤ off
        → off ≤ stop
        → ((w : ℕ) → off ≤ w → locate img.entries 0 w ≡ none)
        → Failed a stop

  -- The bytes of the addresses from `a` to `stop` are punched, and the reader may go on from `stop`; or -1 is
  -- returned, and no other bytes were punched.
  pub data DedupResult (a stop : ℕ) : Res Deduped → Type 0 where
    done :
        (lv : Level) (hs : List Hole)
        → Punched img a stop hs
        → Sought hp img stop (suc (length lv.entries)) lv
        → DedupResult a stop (ok (record { success = true; level = lv; holes = hs }))
    failed :
        (lv : Level) (hs : List Hole)
        → ((x : ℕ) → covered hs x ≡ true → IsOwn img a stop x)
        → Failed a stop
        → DedupResult a stop (ok (record { success = false; level = lv; holes = hs }))

  Failed-below : (a m stop : ℕ) → a ≤ m → Failed m stop → Failed a stop
  Failed-below a m stop h (refused x r) = refused x r
  Failed-below a m stop h (past_end off lo hi n) = past_end off (omega arith) hi n

  with_hole :
      (a m stop : ℕ) (h : Hole) (r : Res Deduped)
      → a ≤ m
      → m ≤ stop
      → Punched img a m (h ∷ [])
      → DedupResult m stop r
      → DedupResult a stop (r >>= λ d. ok (after_hole h d))
  with_hole a m stop h r am ms p (done lv hs q s) =
      done lv (h ∷ hs) (Punched-append img a m stop (h ∷ []) hs am ms p q) s
  with_hole a m stop h r am ms p (failed lv hs o f) =
      failed lv (h ∷ hs) (only-append img a m stop (h ∷ []) hs am ms p.only o)
        (Failed-below a m stop am f)
