-- ===== src/PageServer/Both.antt =====
-- The two dumps of one page pipe side by side: what the client sends, and what the server makes of it.
use crtools.Base.{
  ℕ, ◌+◌, ◌-◌, ◌≤◌, ◌≡◌, refl, sym, ap, ◌∙◌, Bool, true, false, List, [], ◌∷◌, ◌++◌, none, Res, ok,
  Bool-cases, inl, inr, ltb, length, length-take, take, drop, length-drop, slice, All, reverse,
  append_assoc, append-nil, arith,
}
use crtools.Iov.{Iovec}
use crtools.PagePipe.{PagePipe, PagePipeBuf}
use crtools.PageXfer.{
  PageXfer, LocalImage, entry_of, page_local_xfer, write_holes_below, write_holes, dump_segs,
  dump_bufs, page_xfer_dump_pages,
}
use crtools.PageXfer.Local.{
  with_entry, hole_written, segment_written, pages_written, seg_bytes, segs_of, AreFilled,
}
use crtools.PageServer.{
  PageXferJob, ps_iov_add, ps_iov_hole, encode_iov, send_iov, write_pagemap_to_server,
  write_pages_to_server, write_hole_to_server, page_server_xfer,
}
use crtools.PageServer.Serve.{IsSent, message, with_bytes}
use crtools.PageServer.Feeds.{Feeds, Feeds-nil, Feeds-append}

regroup : (a b c d e : List ℕ) → (((a ++ b) ++ c) ++ d) ++ e ≡ a ++ ((b ++ (c ++ d)) ++ e)
regroup a b c d e = simp append_assoc

All-split : (xs ys : List Iovec) → All IsSent (xs ++ ys) → All IsSent xs × All IsSent ys
All-split [] ys p = (tt, p)
All-split (x ∷ xs) ys p = let ih = All-split xs ys p.1 in ((p.0, ih.0), ih.1)

module _ (room : LocalImage → Bool) (roomy : (img : LocalImage) → room img ≡ true) (dst : ℕ)
    (sends : List ℕ → Bool) (all_sent : (sent : List ℕ) → sends sent ≡ true)
    (serve : ℕ → Bool → List ℕ → LocalImage → Res PageXferJob)
    (takes_hole : (iov : Iovec) (img : LocalImage)
      → IsSent iov
      → Feeds serve
          (encode_iov (message dst ps_iov_hole iov))
          img
          (with_entry img (entry_of true iov)))
    (takes_segment : (iov : Iovec) (img : LocalImage) (bytes : List ℕ)
      → IsSent iov
      → length bytes ≡ iov.iov_len
      → Feeds serve
          (encode_iov (message dst ps_iov_add iov) ++ bytes)
          img
          (with_bytes (with_entry img (entry_of false iov)) bytes)) where
  abbrev lx : PageXfer LocalImage
  lx = page_local_xfer none room

  abbrev sx : PageXfer (List ℕ)
  sx = page_server_xfer dst sends

  hole_sent :
      (iov : Iovec) (sent : List ℕ)
      → write_hole_to_server dst sends iov sent
        ≡ ok (sent ++ encode_iov (message dst ps_iov_hole iov))
  unfolding write_hole_to_server send_iov
  hole_sent iov sent = rw (all_sent sent)

  segment_sent :
      (iov : Iovec) (sent : List ℕ)
      → write_pagemap_to_server dst sends iov sent
        ≡ ok (sent ++ encode_iov (message dst ps_iov_add iov))
  unfolding write_pagemap_to_server send_iov
  segment_sent iov sent = rw (all_sent sent)

  pages_sent :
      (pipe : List ℕ) (len : ℕ) (sent : List ℕ)
      → len ≤ length pipe
      → write_pages_to_server dst sends pipe len sent ≡ ok (drop len pipe, sent ++ take len pipe)
  unfolding write_pages_to_server
  pages_sent pipe len sent h =
      let e : ltb (length pipe) len ≡ false = ground arith in rw (e, all_sent sent)

  -- Both dumps of some holes: what each comes back with, and what the server makes of what was sent.
  record Both (sent : List ℕ) (img : LocalImage) (far : Res (List Iovec × List ℕ))
      (near : Res (List Iovec × LocalImage)) : Type 0 where
    hs : List Iovec
    bytes : List ℕ
    img' : LocalImage
    far_ok : far ≡ ok (hs, sent ++ bytes)
    near_ok : near ≡ ok (hs, img')
    fed : Feeds serve bytes img img'
    sent_hs : All IsSent hs

  below-Both :
      (base : ℕ) (hs : List Iovec) (sent : List ℕ) (img : LocalImage)
      → All IsSent hs
      → Both sent img (write_holes_below sx base hs sent) (write_holes_below lx base hs img)
  unfolding write_holes_below
  below-Both base [] sent img v = record {
    hs = [];
    bytes = [];
    img' = img;
    far_ok = ap (λ l. ok ([], l)) (sym (append-nil sent));
    near_ok = refl;
    fed = Feeds-nil serve img;
    sent_hs = tt;
  }
  below-Both base (hole ∷ hs) sent img v = elim (Bool-cases (ltb hole.iov_base base)) [
    | inl lower ↦
        let m = encode_iov (message dst ps_iov_hole hole) in
        let ih = below-Both base hs (sent ++ m) (with_entry img (entry_of true hole)) v.1 in
        record {
          hs = ih.hs;
          bytes = m ++ ih.bytes;
          img' = ih.img';
          far_ok =
              rw (lower, hole_sent hole sent)
                (ih.far_ok ∙ ap (λ l. ok (ih.hs, l)) (append_assoc sent m ih.bytes));
          near_ok = rw (lower, hole_written room roomy hole img) ih.near_ok;
          fed = Feeds-append serve m ih.bytes img _ _ (takes_hole hole img v.0) ih.fed;
          sent_hs = ih.sent_hs;
        }
    | inr not_lower ↦ record {
      hs = hole ∷ hs;
      bytes = [];
      img' = img;
      far_ok = rw not_lower (ap (λ l. ok (hole ∷ hs, l)) (sym (append-nil sent)));
      near_ok = rw not_lower;
      fed = Feeds-nil serve img;
      sent_hs = v;
    }
  ]

  segs-Both :
      (iovs hs : List Iovec) (pipe sent : List ℕ) (img : LocalImage)
      → All IsSent iovs
      → All IsSent hs
      → seg_bytes iovs ≤ length pipe
      → Both sent img (dump_segs sx 0 iovs hs pipe sent) (dump_segs lx 0 iovs hs pipe img)
  unfolding dump_segs
  segs-Both [] hs pipe sent img u v h = record {
    hs = hs;
    bytes = [];
    img' = img;
    far_ok = ap (λ l. ok (hs, l)) (sym (append-nil sent));
    near_ok = refl;
    fed = Feeds-nil serve img;
    sent_hs = v;
  }
  segs-Both (iov ∷ iovs) hs pipe sent img u v h =
      let b = below-Both iov.iov_base hs sent img v in
      let m = encode_iov (message dst ps_iov_add iov) in
      let bytes = take iov.iov_len pipe in
      let img2 = with_entry b.img' (entry_of false iov) in
      let img3 = with_bytes img2 bytes in
      let not_below : ltb iov.iov_base 0 ≡ false = ground arith in
      let zero_off : iov.iov_base - 0 ≡ iov.iov_base = omega arith in
      let long : iov.iov_len ≤ length pipe = omega (arith, h) in
      let size : length bytes ≡ iov.iov_len = omega (arith, length-take iov.iov_len pipe, long) in
      let ih =
        segs-Both iovs b.hs (drop iov.iov_len pipe) (((sent ++ b.bytes) ++ m) ++ bytes) img3 u.1
          b.sent_hs (omega (arith, h, length-drop iov.iov_len pipe)) in
      let seg = takes_segment iov b.img' bytes u.0 size in
      record {
        hs = ih.hs;
        bytes = (b.bytes ++ (m ++ bytes)) ++ ih.bytes;
        img' = ih.img';
        far_ok =
            rw
              (
                b.far_ok,
                not_below,
                zero_off,
                segment_sent iov (sent ++ b.bytes),
                pages_sent pipe iov.iov_len ((sent ++ b.bytes) ++ m) long,
              )
              (ih.far_ok ∙ ap (λ l. ok (ih.hs, l)) (regroup sent b.bytes m bytes ih.bytes));
        near_ok =
            rw
              (
                b.near_ok,
                not_below,
                zero_off,
                segment_written room roomy iov b.img',
                pages_written room roomy pipe iov.iov_len img2 long,
              )
              ih.near_ok;
        fed =
            Feeds-append serve (b.bytes ++ (m ++ bytes)) ih.bytes img img3 _
              (Feeds-append serve b.bytes (m ++ bytes) img b.img' img3 b.fed seg) ih.fed;
        sent_hs = ih.sent_hs;
      }

  bufs-Both :
      (pipe_of : ℕ → List ℕ) (iovs : List Iovec) (i : ℕ) (ppbs : List PagePipeBuf) (hs : List Iovec)
      (sent : List ℕ) (img : LocalImage)
      → All IsSent (segs_of iovs ppbs)
      → All IsSent hs
      → AreFilled pipe_of iovs i ppbs
      → Both sent img
          (dump_bufs sx 0 pipe_of iovs i ppbs hs sent)
          (dump_bufs lx 0 pipe_of iovs i ppbs hs img)
  unfolding dump_bufs
  bufs-Both pipe_of iovs i [] hs sent img u v f = record {
    hs = hs;
    bytes = [];
    img' = img;
    far_ok = ap (λ l. ok (hs, l)) (sym (append-nil sent));
    near_ok = refl;
    fed = Feeds-nil serve img;
    sent_hs = v;
  }
  bufs-Both pipe_of iovs i (ppb ∷ ppbs) hs sent img u v f =
      let part = slice iovs ppb.iov ppb.nr_segs in
      let both = All-split part (segs_of iovs ppbs) u in
      let s = segs-Both part hs (pipe_of i) sent img both.0 v f.0 in
      let ih =
        bufs-Both pipe_of iovs (i + 1) ppbs s.hs (sent ++ s.bytes) s.img' both.1 s.sent_hs f.1 in
      record {
        hs = ih.hs;
        bytes = s.bytes ++ ih.bytes;
        img' = ih.img';
        far_ok =
            rw s.far_ok (ih.far_ok ∙ ap (λ l. ok (ih.hs, l)) (append_assoc sent s.bytes ih.bytes));
        near_ok = rw s.near_ok ih.near_ok;
        fed = Feeds-append serve s.bytes ih.bytes img s.img' _ s.fed ih.fed;
        sent_hs = ih.sent_hs;
      }

  -- Both dumps to their ends.
  pub record Ends (sent : List ℕ) (img : LocalImage) (far : Res (List ℕ)) (near : Res LocalImage)
      : Type 0 where
    pub bytes : List ℕ
    pub img' : LocalImage
    pub far_ok : far ≡ ok (sent ++ bytes)
    pub near_ok : near ≡ ok img'
    pub fed : Feeds serve bytes img img'

  holes-Ends :
      (hs : List Iovec) (sent : List ℕ) (img : LocalImage)
      → All IsSent hs
      → Ends sent img (write_holes sx hs sent) (write_holes lx hs img)
  unfolding write_holes
  holes-Ends [] sent img v = record {
    bytes = [];
    img' = img;
    far_ok = ap ok (sym (append-nil sent));
    near_ok = refl;
    fed = Feeds-nil serve img;
  }
  holes-Ends (hole ∷ hs) sent img v =
      let m = encode_iov (message dst ps_iov_hole hole) in
      let ih = holes-Ends hs (sent ++ m) (with_entry img (entry_of true hole)) v.1 in
      record {
        bytes = m ++ ih.bytes;
        img' = ih.img';
        far_ok = rw (hole_sent hole sent) (ih.far_ok ∙ ap ok (append_assoc sent m ih.bytes));
        near_ok = rw (hole_written room roomy hole img) ih.near_ok;
        fed = Feeds-append serve m ih.bytes img _ _ (takes_hole hole img v.0) ih.fed;
      }

  pub dump-Ends :
      (pipe_of : ℕ → List ℕ) (pp : PagePipe) (sent : List ℕ) (img : LocalImage)
      → All IsSent (segs_of pp.iovs (reverse pp.bufs))
      → All IsSent (take pp.free_hole pp.holes)
      → AreFilled pipe_of pp.iovs 0 (reverse pp.bufs)
      → Ends sent img
          (page_xfer_dump_pages sx pipe_of pp 0 sent)
          (page_xfer_dump_pages lx pipe_of pp 0 img)
  unfolding page_xfer_dump_pages
  dump-Ends pipe_of pp sent img u v f =
      let b =
        bufs-Both pipe_of pp.iovs 0 (reverse pp.bufs) (take pp.free_hole pp.holes) sent img u v f in
      let e = holes-Ends b.hs (sent ++ b.bytes) b.img' b.sent_hs in
      record {
        bytes = b.bytes ++ e.bytes;
        img' = e.img';
        far_ok = rw b.far_ok (e.far_ok ∙ ap ok (append_assoc sent b.bytes e.bytes));
        near_ok = rw b.near_ok e.near_ok;
        fed = Feeds-append serve b.bytes e.bytes img b.img' _ b.fed e.fed;
      }
