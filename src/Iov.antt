-- ===== src/Iov.antt =====
-- `struct iovec`, a part of an address space, as page-pipe.c, page-xfer.c, page-read.c and mem.c use
-- it, and the page addresses that it stands for.
use crtools.Base.{
  ℕ, zero, suc, ◌+◌, ◌*◌, ◌/◌, ◌%◌, ◌^◌, ◌<◌, ◌≡◌, refl, ap, ◌∙◌, sym, List, [], ◌∷◌, ◌++◌, arith,
  page_size, add64, length, append_assoc,
}

pub record Iovec : Type 0 where
  pub iov_base : ℕ
  pub iov_len : ℕ

-- `(unsigned long)iov->iov_base + iov->iov_len`
abbrev pub iov_end : Iovec → ℕ
iov_end iov = add64 iov.iov_base iov.iov_len

-- The addresses of `n` pages from `a` on.
abbrev pub page_run : ℕ → ℕ → List ℕ
page_run a zero = []
page_run a (suc n) = a ∷ page_run (a + page_size) n

abbrev pub iov_pages : Iovec → List ℕ
iov_pages iov = page_run iov.iov_base (iov.iov_len / page_size)

abbrev pub pages : List Iovec → List ℕ
pages [] = []
pages (iov ∷ iovs) = iov_pages iov ++ pages iovs

pub pages-append : (xs ys : List Iovec) → pages (xs ++ ys) ≡ pages xs ++ pages ys
pages-append [] ys = refl
pages-append (x ∷ xs) ys =
    ap (◌++◌ (iov_pages x)) (pages-append xs ys)
    ∙ sym (append_assoc (iov_pages x) (pages xs) (pages ys))

pub page_run-suc : (a n : ℕ) → page_run a (suc n) ≡ page_run a n ++ (a + n * page_size) ∷ []
page_run-suc a zero = ap (λ b. b ∷ []) (omega arith)
page_run-suc a (suc n) =
    ap (◌∷◌ a) (
      page_run-suc (a + page_size) n ∙ ap (λ b. page_run (a + page_size) n ++ b ∷ []) (omega arith))

pub length-page_run : (a n : ℕ) → length (page_run a n) ≡ n
length-page_run a zero = refl
length-page_run a (suc n) = ap suc (length-page_run (a + page_size) n)

-- An iovec of whole pages that ends below 2^64, so that `iov_end` does not wrap.
pub record IsPaged (iov : Iovec) : Type 0 where
  pub whole : iov.iov_len % page_size ≡ 0
  pub inside : iov.iov_base + iov.iov_len < 2 ^ 64

abbrev pub one_page : ℕ → Iovec
one_page addr = record { iov_base = addr; iov_len = page_size }

abbrev pub extend : Iovec → Iovec
extend iov = record iov { iov_len = add64 iov.iov_len page_size }

-- Extending an iovec by a page adds the address at its end.
pub pages-extend :
    (iov : Iovec)
    → IsPaged iov
    → iov_end iov + page_size < 2 ^ 64
    → iov_pages (extend iov) ≡ iov_pages iov ++ iov_end iov ∷ []
pages-extend iov v room =
    ap (page_run iov.iov_base) {y = suc (iov.iov_len / page_size)} (omega arith)
    ∙ page_run-suc iov.iov_base (iov.iov_len / page_size)
    ∙ ap (λ b. iov_pages iov ++ b ∷ []) (omega arith)

pub extend-IsPaged :
    (iov : Iovec) → IsPaged iov → iov_end iov + page_size < 2 ^ 64 → IsPaged (extend iov)
extend-IsPaged iov v room = omega arith
