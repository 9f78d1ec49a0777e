-- ===== src/Dedup/Entries.antt =====
-- Deduplication by all entries of a snapshot (cr_dedup_one_pagemap of cr-dedup.c).
use crtools.Base.{
  ℕ, ◌≡◌, Bool, true, false, ◌&&◌, List, [], ◌∷◌, ◌++◌, some, Res, ok, ltb, leb, if◌then◌else◌,
}
use crtools.Pagemap.{PagemapEntry}
use crtools.PageRead.{Level}
use crtools.PageRead.Image.{Image, entry_end, locate}
use crtools.Dedup.{Hole, Deduped}
use crtools.Dedup.Punch.{covered}
use crtools.Dedup.Loop.{Failed}

-- An entry that is not in the parent holds the address.
abbrev pub holds_own : List PagemapEntry → ℕ → Bool
holds_own [] w = false
holds_own (e ∷ es) w = elim e.in_parent [
  | true ↦ holds_own es w
  | false ↦ if leb e.vaddr w && ltb w (entry_end e) then true else holds_own es w
]

-- The byte of the parent's pages.img is that of an address that the snapshot has itself.
abbrev pub IsDouble : Image → List PagemapEntry → ℕ → Type 0
IsDouble img es x = (w : ℕ) × (holds_own es w ≡ true) × (locate img.entries 0 w ≡ some (false, x))

module _ (fallocates : Hole → Bool) (hp : Bool) (img : Image) where
  -- All bytes that the entries `es` have themselves are covered.
  abbrev pub AllPunched : List PagemapEntry → List Hole → Type 0
  AllPunched es hs =
      (w x : ℕ)
      → holds_own es w ≡ true
      → locate img.entries 0 w ≡ some (false, x)
      → covered hs x ≡ true

  -- Exactly the bytes that the snapshot has itself are punched out of the parent; or -1 is returned at an entry `e` of
  -- the snapshot's own, those of the entries before it are punched, and only those up to its end are.
  pub data EntriesResult (es : List PagemapEntry) : Res Deduped → Type 0 where
    punched :
        (lv : Level) (hs : List Hole)
        → ((x : ℕ) → covered hs x ≡ true → IsDouble img es x)
        → AllPunched es hs
        → EntriesResult es (ok (record { success = true; level = lv; holes = hs }))
    stopped :
        (lv : Level) (hs : List Hole) (xs : List PagemapEntry) (e : PagemapEntry)
        (ys : List PagemapEntry)
        → es ≡ xs ++ e ∷ ys
        → e.in_parent ≡ false
        → ((x : ℕ) → covered hs x ≡ true → IsDouble img (xs ++ e ∷ []) x)
        → AllPunched xs hs
        → Failed fallocates hp img e.vaddr (entry_end e)
        → EntriesResult es (ok (record { success = false; level = lv; holes = hs }))
