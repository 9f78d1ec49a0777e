-- ===== src/Tests/Memory.antt =====
-- The pages of a small task, restored from two snapshots.
use crtools.Base.{
  arith, ℕ, ◌≡◌, refl, Bool, true, false, List, [], ◌∷◌, Res, ok, err, bug, ◌==◌, ◌||◌, replicate,
}
use crtools.PageRead.Pass.{open_chain}
use crtools.RestorePages.{RstVma, Premapped, restore_priv_vma_content}
use crtools.RestorePages.Placed.{IsSorted}
use crtools.RestorePages.Success.{succeeded, restore_priv_vma_content-succeeded}
use crtools.Tests.Images.{child_image, parent_image, chain, chain-AllWhole}

abbrev zeros : ℕ → List ℕ
zeros a = replicate 4096 0

abbrev always : ℕ → Bool
always a = true

-- A mapping with inherited pages, and one below it that no page is for.
abbrev vmas : List RstVma
vmas =
    record { start = 0; end = 4096; priv = false; inherited = false }
    ∷ record { start = 4096; end = 16384; priv = true; inherited = true }
    ∷ []

-- Two pages are inherited, one of which no snapshot has.
abbrev inherited_memory : Premapped
inherited_memory = record {
  content = λ a. replicate 4096 7;
  page_bits = λ a. false;
  ppage_bits = λ a. (a == 8192) || (a == 12288);
  nr_restored = 0;
  nr_shared = 0;
}

vmas-IsSorted : IsSorted 0 vmas
vmas-IsSorted = omega arith

result_of {ℓ} : {A : Type ℓ} (r : Res A) → succeeded r ≡ true → (x : A) × (r ≡ ok x)
result_of (ok x) e = (x, refl)
result_of err e = absurd (cc)
result_of bug e = absurd (cc)

abbrev restored :
    (m : Premapped) × (restore_priv_vma_content zeros always vmas child_image.entries
        (open_chain chain)
        inherited_memory
      ≡ ok m)
restored =
    result_of
      (restore_priv_vma_content zeros always vmas child_image.entries (open_chain chain)
        inherited_memory)
      (restore_priv_vma_content-succeeded zeros always (λ a. refl) (parent_image ∷ []) child_image
        vmas inherited_memory chain-AllWhole vmas-IsSorted)
