-- ===== src/Dedup/Punch.antt =====
-- What dedup_one_iovec of cr-dedup.c punches.
use crtools.Base.{
  ℕ, ◌+◌, ◌-◌, ◌≤◌, ◌<◌, ◌≡◌, refl, sym, ap, ◌∙◌, inl, inr, Bool, true, false, ◌&&◌, Bool-cases,
  List, [], ◌∷◌, ◌++◌, Option, none, some, ltb, leb, ltb→lt, not_ltb, if◌then◌else◌, arith,
}
use crtools.Pagemap.{PagemapEntry}
use crtools.PageRead.{Level}
use crtools.PageRead.Image.{Image, entry_end, locate}
use crtools.PageRead.Inside.{At}
use crtools.Dedup.{Hole}

-- A byte of pages.img is in one of the holes.
abbrev pub covered : List Hole → ℕ → Bool
covered [] x = false
covered (h ∷ hs) x = if leb h.off x && ltb x (h.off + h.len) then true else covered hs x

-- The byte is that of an address from `a` to `stop`, in the snapshot's own pages.img.
abbrev pub IsOwn : Image → ℕ → ℕ → ℕ → Type 0
IsOwn img a stop x = (w : ℕ) × (a ≤ w) × (w < stop) × (locate img.entries 0 w ≡ some (false, x))

-- The holes are exactly the bytes of the addresses from `a` to `stop`.
pub record Punched (img : Image) (a stop : ℕ) (hs : List Hole) : Type 0 where
  pub only : (x : ℕ) → covered hs x ≡ true → IsOwn img a stop x
  pub all :
      (w x : ℕ) → a ≤ w → w < stop → locate img.entries 0 w ≡ some (false, x) → covered hs x ≡ true

pub covered-append :
    (xs ys : List Hole) (x : ℕ)
    → covered (xs ++ ys) x ≡ (if covered xs x then true else covered ys x)
covered-append [] ys x = refl
covered-append (h ∷ hs) ys x = elim (Bool-cases (leb h.off x && ltb x (h.off + h.len))) [
  | inl c ↦ rw c refl
  | inr c ↦ rw c (covered-append hs ys x)
]

pub only-append :
    (img : Image) (a m stop : ℕ) (xs ys : List Hole)
    → a ≤ m
    → m ≤ stop
    → ((x : ℕ) → covered xs x ≡ true → IsOwn img a m x)
    → ((x : ℕ) → covered ys x ≡ true → IsOwn img m stop x)
    → (x : ℕ) → covered (xs ++ ys) x ≡ true
    → IsOwn img a stop x
only-append img a m stop xs ys am ms f g x c = elim (Bool-cases (covered xs x)) [
  | inl i ↦ let (w, lo, hi, l) = f x i in (w, lo, omega arith, l)
  | inr o ↦
      let both : covered (xs ++ ys) x ≡ covered ys x = covered-append xs ys x ∙ rw o refl in
      let (w, lo, hi, l) = g x (sym both ∙ c) in (w, omega arith, hi, l)
]

pub Punched-append :
    (img : Image) (a m stop : ℕ) (xs ys : List Hole)
    → a ≤ m
    → m ≤ stop
    → Punched img a m xs
    → Punched img m stop ys
    → Punched img a stop (xs ++ ys)
Punched-append img a m stop xs ys am ms f g = record {
  only = only-append img a m stop xs ys am ms f.only g.only;
  all = λ w x lo hi l. covered-append xs ys x ∙ elim (Bool-cases (ltb w m)) [
    | inl b ↦ rw (f.all w x lo (ltb→lt _ _ b) l) refl
    | inr n ↦ rw (g.all w x (not_ltb _ _ n) hi l) (either (covered xs x))
  ];
}
  where
    either : (b : Bool) → (if b then true else true) ≡ true
    either true = refl
    either false = refl

-- Addresses that the snapshot itself has no byte of.
pub Punched-none :
    (img : Image) (a m : ℕ)
    → ((w x : ℕ) → a ≤ w → w < m → locate img.entries 0 w ≡ some (false, x) → ⊥)
    → Punched img a m []
Punched-none img a m n = record {
  only = λ x c. absurd (cc);
  all = λ w x lo hi l. absurd (n w x lo hi l);
}

-- The bytes of an entry that a reader is in.
pub locate-inside :
    (hp : Bool) (img : Image) (lv : Level) (e : PagemapEntry) (base w : ℕ)
    → At hp img lv e base
    → lv.cvaddr ≤ w
    → w < entry_end e
    → locate img.entries 0 w ≡ some (e.in_parent, base + (w - e.vaddr))
locate-inside hp img lv e base w a lo hi = a.rest w lo ∙ inside e (omega (arith, a.inside.0)) hi
  where
    inside :
        (e : PagemapEntry)
        → e.vaddr ≤ w
        → w < entry_end e
        → locate (e ∷ lv.entries) base w ≡ some (e.in_parent, base + (w - e.vaddr))
    inside e lo hi = ground arith

abbrev offset_of : ℕ → Option (Bool × ℕ) → ℕ
offset_of y none = y
offset_of y (some (b, z)) = z

own_offset : (x y : ℕ) (l m : Option (Bool × ℕ)) → l ≡ some (false, x) → l ≡ m → offset_of y m ≡ x
own_offset x y l m e q = ap (offset_of y) (sym q ∙ e)

-- One hole, from where the reader is to `m` in its entry.
pub Punched-hole :
    (hp : Bool) (img : Image) (lv : Level) (e : PagemapEntry) (base m : ℕ)
    → At hp img lv e base
    → e.in_parent ≡ false
    → lv.cvaddr ≤ m
    → m ≤ entry_end e
    → Punched img lv.cvaddr m (record { off = lv.offset; len = m - lv.cvaddr } ∷ [])
Punched-hole hp img lv e base m a own lo hi = record {
  only = λ x c.
      let (from, to) = in_hole lv.offset (m - lv.cvaddr) x c in
      (
        x - base + e.vaddr,
        omega (arith, at, from),
        omega (arith, at, from, to),
        locate-inside hp img lv e base (x - base + e.vaddr) a (omega (arith, at, from))
              (omega (arith, at, from, to))
            ∙ rw own (ap (λ z. some (false, z)) (omega (arith, at, from))),
      );
  all = λ w x lw hw l.
      let same : base + (w - e.vaddr) ≡ x =
        own_offset x 0 (locate img.entries 0 w) (some (e.in_parent, base + (w - e.vaddr))) l
          (locate-inside hp img lv e base w a lw (omega arith)) in
      hole_covers lv.offset (m - lv.cvaddr) x (omega (arith, at, same, lw))
        (omega (arith, at, same, lw, hw));
}
  where
    at : (lv.offset ≡ base + (lv.cvaddr - e.vaddr)) × (e.vaddr ≤ lv.cvaddr)
    at = (a.offset ∙ rw own refl, a.inside.0)

    in_hole :
        (off len x : ℕ)
        → covered (record { off = off; len = len } ∷ []) x ≡ true
        → (off ≤ x) × (x < off + len)
    in_hole off len x c = ground arith

    hole_covers :
        (off len x : ℕ)
        → off ≤ x
        → x < off + len
        → covered (record { off = off; len = len } ∷ []) x ≡ true
    hole_covers off len x lo hi = ground arith
