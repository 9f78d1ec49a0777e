-- ===== src/PageServer/Feeds.antt =====
-- What it means that the page server takes some bytes from the socket, whatever its loop is.
use crtools.Base.{
  ℕ, ◌+◌, ◌≤◌, ◌≡◌, ap, ap₂, ◌∙◌, Bool, List, [], ◌++◌, Res, length, length-append, append_assoc,
  arith,
}
use crtools.PageXfer.{LocalImage}
use crtools.PageServer.{PageXferJob}

module _ (serve : ℕ → Bool → List ℕ → LocalImage → Res PageXferJob) where
  -- The server takes `bytes` in some rounds, no more than there are bytes, and its image goes from one to the other.
  pub record Feeds (bytes : List ℕ) (img img' : LocalImage) : Type 0 where
    pub rounds : ℕ
    pub few : rounds ≤ length bytes
    pub feeds :
        (fuel : ℕ) (flushed : Bool) (rest : List ℕ)
        → (flushed' : Bool) × (serve (rounds + fuel) flushed (bytes ++ rest) img
            ≡ serve fuel flushed' rest img')

  pub Feeds-nil : (img : LocalImage) → Feeds [] img img
  Feeds-nil img = record {
    rounds = 0;
    few = omega arith;
    feeds = λ fuel flushed rest.
        (flushed, let e : 0 + fuel ≡ fuel = omega arith in ap (λ n. serve n flushed rest img) e);
  }

  pub Feeds-append :
      (a b : List ℕ) (x y z : LocalImage) → Feeds a x y → Feeds b y z → Feeds (a ++ b) x z
  Feeds-append a b x y z p q = record {
    rounds = p.rounds + q.rounds;
    few = let pf = p.few in let qf = q.few in omega (arith, pf, qf, length-append a b);
    feeds = λ fuel flushed rest.
        (let (f1, e1) = p.feeds (q.rounds + fuel) flushed (b ++ rest) in
          let (f2, e2) = q.feeds fuel f1 rest in
          let n : p.rounds + q.rounds + fuel ≡ p.rounds + (q.rounds + fuel) = omega arith in
          (f2, ap₂ (λ k l. serve k flushed l x) n (append_assoc a b rest) ∙ e1 ∙ e2));
  }
