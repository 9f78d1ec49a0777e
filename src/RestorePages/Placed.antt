-- ===== src/RestorePages/Placed.antt =====
-- The search for the mapping of a page in restore_priv_vma_content (cr-restore.c), which goes on from the last one,
-- against a search of all mappings.
use crtools.Base.{
  ℕ, zero, suc, ◌+◌, ◌*◌, ◌/◌, ◌≤◌, ◌<◌, ◌≡◌, refl, sym, ap, ap₂, ◌∙◌, subst, inl, inr, Bool, true,
  false, not, ◌&&◌, ◌||◌, Bool-cases, List, [], ◌∷◌, ◌++◌, Option, none, some, ltb, leb, ltb→lt,
  not_ltb, if◌then◌else◌, page_size, arith,
}
use crtools.Iov.{page_run}
use crtools.Pagemap.{PagemapEntry, pagemap2iovec}
use crtools.PageRead.Image.{entry_end, Ascends}
use crtools.RestorePages.{RstVma, skip_vmas}
use crtools.RestorePages.Entries.{entry_pages, entry_run}

-- Each page, in turn, lies in the first mapping from the last one on that ends above it, and that is private.
abbrev pub all_placed : List RstVma → List ℕ → Bool
all_placed vs [] = true
all_placed vs (a ∷ pages) = elim (skip_vmas a vs) [
  | none ↦ false
  | some (v, more) ↦ not (ltb a v.start || not v.priv) && all_placed (v ∷ more) pages
]

-- The page is in a private mapping.
abbrev pub in_private : List RstVma → ℕ → Bool
in_private [] a = false
in_private (v ∷ vs) a = if leb v.start a && (ltb a v.end && v.priv) then true else in_private vs a

abbrev pub all_private : List RstVma → List ℕ → Bool
all_private vs [] = true
all_private vs (a ∷ pages) = in_private vs a && all_private vs pages

-- Mappings in ascending order, from `lo` on.
abbrev pub IsSorted : ℕ → List RstVma → Type 0
IsSorted lo [] = Unit {0}
IsSorted lo (v ∷ vs) = (lo ≤ v.start) × (v.start ≤ v.end) × IsSorted v.end vs

abbrev pub IsAscending : ℕ → List ℕ → Type 0
IsAscending lo [] = Unit {0}
IsAscending lo (a ∷ pages) = (lo ≤ a) × IsAscending a pages

in_private_below : (vs : List RstVma) (lo a : ℕ) → IsSorted lo vs → a < lo → in_private vs a ≡ false
in_private_below [] lo a up h = refl
in_private_below (v ∷ vs) lo a up h =
    let rest = in_private_below vs v.end a up.2 (omega (arith, up.0, up.1)) in ground (arith, up.0)

-- A mapping that ends at or below the page.
in_private-skip :
    (v : RstVma) (vs : List RstVma) (a : ℕ) → v.end ≤ a → in_private (v ∷ vs) a ≡ in_private vs a
in_private-skip v vs a h = ground arith

-- The mapping that ends above the page, when those behind it are above the page.
in_private-here :
    (v : RstVma) (vs : List RstVma) (a : ℕ)
    → a < v.end
    → in_private vs a ≡ false
    → in_private (v ∷ vs) a ≡ not (ltb a v.start || not v.priv)
in_private-here v vs a h n = ground arith

-- What skip_vmas has left.
record Skipped (vs : List RstVma) (a : ℕ) (v : RstVma) (more : List RstVma) : Type 0 where
  above : a < v.end
  sorted : IsSorted v.start (v ∷ more)
  same : (w : ℕ) → a ≤ w → in_private vs w ≡ in_private (v ∷ more) w

data SkipResult (vs : List RstVma) (a : ℕ) : Option (RstVma × List RstVma) → Type 0 where
  past_all : in_private vs a ≡ false → SkipResult vs a none
  stops : (v : RstVma) (more : List RstVma) → Skipped vs a v more → SkipResult vs a (some (v, more))

skip_one :
    (v : RstVma) (vs : List RstVma) (a : ℕ) (o : Option (RstVma × List RstVma))
    → v.end ≤ a
    → SkipResult vs a o
    → SkipResult (v ∷ vs) a o
skip_one v vs a _ h (past_all n) = past_all (in_private-skip v vs a h ∙ n)
skip_one v vs a _ h (stops u more k) = stops u more (record {
  above = k.above;
  sorted = k.sorted;
  same = λ w hw. in_private-skip v vs w (omega arith) ∙ k.same w hw;
})

skip_vmas-SkipResult :
    (vs : List RstVma) (lo a : ℕ) → IsSorted lo vs → SkipResult vs a (skip_vmas a vs)
skip_vmas-SkipResult [] lo a up = past_all refl
skip_vmas-SkipResult (v ∷ vs) lo a up = elim (Bool-cases (ltb a v.end)) [
  | inl b ↦
      rw (skip_vmas, b)
        (stops v vs (record {
          above = ltb→lt _ _ b;
          sorted = (omega arith, up.1, up.2);
          same = λ w hw. refl;
        }))
  | inr b ↦
      rw (skip_vmas, b)
        (skip_one v vs a (skip_vmas a vs) (not_ltb _ _ b) (skip_vmas-SkipResult vs v.end a up.2))
]

all_private-same :
    (vs us : List RstVma) (lo : ℕ) (pages : List ℕ)
    → ((w : ℕ) → lo ≤ w → in_private vs w ≡ in_private us w)
    → IsAscending lo pages
    → all_private vs pages ≡ all_private us pages
all_private-same vs us lo [] same up = refl
all_private-same vs us lo (a ∷ pages) same up =
    ap₂ (λ b c. b && c) (same a up.0)
      (all_private-same vs us a pages (λ w h. same w (omega (arith, up.0))) up.1)

-- For mappings and pages in ascending order, going on from the last mapping finds what a search of all does.
pub all_placed-all_private :
    (lo : ℕ) (vs : List RstVma) (from : ℕ) (pages : List ℕ)
    → IsSorted lo vs
    → IsAscending from pages
    → all_placed vs pages ≡ all_private vs pages
all_placed-all_private lo vs from [] up asc = refl
all_placed-all_private lo vs from (a ∷ pages) up asc =
    by_search (skip_vmas a vs) refl (skip_vmas-SkipResult vs lo a up)
      (λ v more k. all_placed-all_private v.start (v ∷ more) a pages k.sorted asc.1)
  where
    by_search :
        (o : Option (RstVma × List RstVma))
        → skip_vmas a vs ≡ o
        → SkipResult vs a o
        → ((v : RstVma) (more : List RstVma)
            → Skipped vs a v more
            → all_placed (v ∷ more) pages ≡ all_private (v ∷ more) pages)
        → all_placed vs (a ∷ pages) ≡ all_private vs (a ∷ pages)
    by_search _ q (past_all n) rest = rw (all_placed, q, all_private, n) refl
    by_search _ q (stops v more k) rest =
        let here : in_private vs a ≡ not (ltb a v.start || not v.priv) =
          k.same a (omega arith)
          ∙ in_private-here v more a k.above (in_private_below more v.end a k.sorted.2 k.above) in
        rw (all_placed, q, all_private, here)
          (ap (λ b. not (ltb a v.start || not v.priv) && b)
            (rest v more k ∙ sym (all_private-same vs (v ∷ more) a pages k.same asc.1)))

run-IsAscending :
    (n lo a : ℕ) (rest : List ℕ)
    → lo ≤ a
    → IsAscending (a + n * page_size) rest
    → IsAscending lo (page_run a n ++ rest)
run-IsAscending zero lo a rest h up = weaken rest up
  where
    weaken : (rest : List ℕ) → IsAscending (a + 0 * page_size) rest → IsAscending lo rest
    weaken [] up = tt
    weaken (b ∷ bs) up = (omega (arith, up.0), up.1)
run-IsAscending (suc n) lo a rest h up = (
  h,
  run-IsAscending n a (a + page_size) rest (omega arith)
      (subst (λ z. IsAscending z rest) (omega arith) up),
)

pub entry_pages-IsAscending :
    (lo : ℕ) (es : List PagemapEntry) → Ascends lo es → IsAscending lo (entry_pages es)
entry_pages-IsAscending lo [] up = tt
entry_pages-IsAscending lo (e ∷ es) up =
    run-IsAscending ((pagemap2iovec e).iov_len / page_size) lo e.vaddr (entry_pages es) up.0 (
      subst (λ z. IsAscending z (entry_pages es)) (sym (entry_run e up.1))
        (entry_pages-IsAscending (entry_end e) es up.3))
