-- ===== src/Restore/Hint.antt =====
-- restorer_get_vma_hint of cr-restore.c finds room between the regions of two lists.
use crtools.Base.{
  ℕ, zero, suc, ◌+◌, ◌*◌, ◌^◌, ◌≡◌, refl, true, add64, ltb→lt, ◌≤◌, ◌<◌, ◌⊎◌, inl, inr, Bool-cases,
  List, [], ◌∷◌, Res, ok, err, ltb, not_ltb, length, page_size, arith,
}
use crtools.Restore.{
  Vma, Cursor, vma_at, end_vma, start_of, past, vma_hint, Vmas, restorer_get_vma_hint,
}

-- The regions ascend and do not overlap.
abbrev pub IsOrdered : Vma → List Vma → Type 0
IsOrdered v [] = v.start ≤ v.end
IsOrdered v (w ∷ ws) = (v.start ≤ v.end) × (v.end ≤ w.start) × IsOrdered w ws

-- All but the last one.
abbrev pub AllButLast : (Vma → Type 0) → Vma → List Vma → Type 0
AllButLast P v [] = Unit {0}
AllButLast P v (w ∷ ws) = P v × AllButLast P w ws

-- `vma_len` bytes from `h` on do not meet the region.
abbrev pub IsApart : ℕ → ℕ → Vma → Type 0
IsApart h vma_len v = (h + vma_len ≤ v.start) ⊎ (v.end ≤ h)

-- The pointer has come past regions that end below `prev`.
data Reach (prev : ℕ) : Vma → List Vma → Cursor → Type 0 where
  reach_at : (v : Vma) (vs : List Vma) → Reach prev v vs (vma_at v vs)
  reach_past :
      (v w : Vma) (ws : List Vma) (c : Cursor)
      → v.end ≤ prev
      → Reach prev w ws c
      → Reach prev v (w ∷ ws) c
  reach_end : (v : Vma) → Reach prev v [] end_vma

Reach-more :
    (p q : ℕ) (v : Vma) (vs : List Vma) (c : Cursor) → p ≤ q → Reach p v vs c → Reach q v vs c
Reach-more p q v vs c l (reach_at _ _) = reach_at v vs
Reach-more p q v vs c l (reach_past _ w ws _ e r) =
    reach_past v w ws c (omega (arith, l, e)) (Reach-more p q w ws c l r)
Reach-more p q v vs c l (reach_end _) = reach_end v

Reach-next :
    (p : ℕ) (v : Vma) (vs : List Vma) (c d : Vma) (ds : List Vma)
    → c.end ≤ p
    → Reach p v vs (vma_at c (d ∷ ds))
    → Reach p v vs (vma_at d ds)
Reach-next p v vs c d ds l (reach_at _ _) = reach_past v d ds (vma_at d ds) l (reach_at d ds)
Reach-next p v vs c d ds l (reach_past _ w ws _ e r) =
    reach_past v w ws (vma_at d ds) e (Reach-next p w ws c d ds l r)

Reach-last :
    (p : ℕ) (v : Vma) (vs : List Vma) (c : Vma) → Reach p v vs (vma_at c []) → Reach p v vs end_vma
Reach-last p v vs c (reach_at _ _) = reach_end v
Reach-last p v vs c (reach_past _ w ws _ e r) = reach_past v w ws end_vma e (Reach-last p w ws c r)

-- Room before a region is room before those behind it.
room_before :
    (h vma_len : ℕ) (v : Vma) (vs : List Vma)
    → IsOrdered v vs
    → h + vma_len ≤ v.start
    → AllButLast (IsApart h vma_len) v vs
room_before h vma_len v [] o l = tt
room_before h vma_len v (w ∷ ws) o l =
    let a = o.0 in let b = o.1 in (inl l, room_before h vma_len w ws o.2 (omega (arith, l, a, b)))

room_after :
    (task_size h vma_len : ℕ) (v : Vma) (vs : List Vma) (c : Cursor)
    → IsOrdered v vs
    → Reach h v vs c
    → h + vma_len ≤ start_of task_size c
    → AllButLast (IsApart h vma_len) v vs
room_after ts h vma_len v vs c o (reach_at _ _) l = room_before h vma_len v vs o l
room_after ts h vma_len v vs c o (reach_past _ w ws _ e r) l =
    (inr e, room_after ts h vma_len w ws c o.2 r l)
room_after ts h vma_len v vs c o (reach_end _) l = tt

-- Rounds that a pointer can still take.
abbrev left_of : Cursor → ℕ
left_of (vma_at v vs) = suc (length vs)
left_of end_vma = 0

past_more : (p : ℕ) (v : Vma) → (p ≤ past p v) × (v.end ≤ past p v)
past_more p v = (ground arith, ground arith)

-- The end of a region but the last one.
abbrev pub IsEnd : ℕ → Vma → List Vma → Type 0
IsEnd p v [] = ⊥
IsEnd p v (w ∷ ws) = (p ≡ v.end) ⊎ IsEnd p w ws

Reach-IsEnd :
    (p : ℕ) (v : Vma) (vs : List Vma) (c d : Vma) (ds : List Vma)
    → Reach p v vs (vma_at c (d ∷ ds))
    → IsEnd c.end v vs
Reach-IsEnd p v vs c d ds (reach_at _ _) = inl refl
Reach-IsEnd p v vs c d ds (reach_past _ w ws _ e r) = inr (Reach-IsEnd p w ws c d ds r)

Reach-AllButLast :
    (P : Vma → Type 0) (p : ℕ) (v : Vma) (vs : List Vma) (c d : Vma) (ds : List Vma)
    → Reach p v vs (vma_at c (d ∷ ds))
    → AllButLast P v vs
    → P c
Reach-AllButLast P p v vs c d ds (reach_at _ _) a = a.0
Reach-AllButLast P p v vs c d ds (reach_past _ w ws _ e r) a =
    Reach-AllButLast P p w ws c d ds r a.1

-- When the pointer is past the list, all regions but the last one end below `p`.
Reach-ends :
    (p : ℕ) (v : Vma) (vs : List Vma) → Reach p v vs end_vma → AllButLast (λ u. u.end ≤ p) v vs
Reach-ends p v vs (reach_past _ w ws _ e r) = (e, Reach-ends p w ws r)
Reach-ends p v vs (reach_end _) = tt

-- Where room may begin: at the lowest address, or behind a region but the last one of its list.
abbrev pub IsGap : Vmas → Vmas → ℕ → Type 0
IsGap tgt self p = (p ≡ page_size * 16) ⊎ (IsEnd p tgt.head tgt.rest ⊎ IsEnd p self.head self.rest)

-- What the search comes back with: the begin of a gap that is large enough; or there is a gap behind all regions of
-- one of the lists but its last one, and from its begin to TASK_SIZE there are fewer than `vma_len` bytes.
pub data HintResult (task_size vma_len : ℕ) (tgt self : Vmas) : Res ℕ → Type 0 where
  hint :
      (h : ℕ)
      → IsGap tgt self h
      → page_size * 16 ≤ h
      → AllButLast (IsApart h vma_len) tgt.head tgt.rest
      → AllButLast (IsApart h vma_len) self.head self.rest
      → HintResult task_size vma_len tgt self (ok h)
  no_room :
      (p : ℕ)
      → IsGap tgt self p
      → task_size < p + vma_len
      → AllButLast (λ u. u.end ≤ p) tgt.head tgt.rest
        ⊎ AllButLast (λ u. u.end ≤ p) self.head self.rest
      → HintResult task_size vma_len tgt self err

module _ (task_size vma_len : ℕ) (tgt self : Vmas) (tgt_ordered : IsOrdered tgt.head tgt.rest)
    (self_ordered : IsOrdered self.head self.rest)
    (tgt_low : AllButLast (λ u. u.end ≤ task_size) tgt.head tgt.rest)
    (self_low : AllButLast (λ u. u.end ≤ task_size) self.head self.rest)
    (fits : (page_size * 16 ≤ task_size) × (task_size + vma_len < 2 ^ 63)) where
  -- The state of the loop.
  record Looks (fuel prev : ℕ) (s t : Cursor) : Type 0 where
    above : page_size * 16 ≤ prev
    low : prev ≤ task_size
    gap : IsGap tgt self prev
    reach_s : Reach prev self.head self.rest s
    reach_t : Reach prev tgt.head tgt.rest t
    enough : left_of s + left_of t < fuel

  past-IsGap :
      (prev : ℕ) (v : Vma)
      → IsGap tgt self prev
      → IsGap tgt self v.end
      → IsGap tgt self (past prev v)
  past-IsGap prev v g h = elim (Bool-cases (ltb prev v.end)) [ inl b ↦ rw b h | inr b ↦ rw b g ]

  past_low : (prev : ℕ) (v : Vma) → prev ≤ task_size → v.end ≤ task_size → past prev v ≤ task_size
  past_low prev v a b = ground arith

  -- The sum does not wrap.
  sum : (prev : ℕ) → prev ≤ task_size → add64 prev vma_len ≡ prev + vma_len
  sum prev h = omega (arith, h, fits.1)

  module _ (fuel prev : ℕ)
      (later : (p : ℕ) (s t : Cursor)
        → Looks fuel p s t
        → HintResult task_size vma_len tgt self (vma_hint fuel task_size vma_len p s t)) where
    -- A round that moves the pointer into the own regions.
    move_s :
        (s t : Cursor)
        → ltb (start_of task_size s) (add64 prev vma_len) ≡ true
        → Looks (suc fuel) prev s t
        → HintResult task_size vma_len tgt self (elim s [
          | end_vma ↦ err
          | vma_at v vs ↦ elim vs [
            | [] ↦ vma_hint fuel task_size vma_len prev end_vma t
            | w ∷ ws ↦ vma_hint fuel task_size vma_len (past prev v) (vma_at w ws) t
          ]
        ])
    move_s end_vma t full k =
        no_room prev k.gap (omega (arith, ltb→lt _ _ full, sum prev k.low))
          (inr (Reach-ends prev self.head self.rest k.reach_s))
    move_s (vma_at v []) t full k = later prev end_vma t (record {
      above = k.above;
      low = k.low;
      gap = k.gap;
      reach_s = Reach-last prev self.head self.rest v k.reach_s;
      reach_t = k.reach_t;
      enough = let e = k.enough in omega (arith, e);
    })
    move_s (vma_at v (w ∷ ws)) t full k =
        let m = past_more prev v in
        let q = past prev v in
        later q (vma_at w ws) t (record {
          above = let a = k.above in let m0 = m.0 in omega (arith, a, m0);
          low = past_low prev v k.low (
              Reach-AllButLast (λ u. u.end ≤ task_size) prev self.head self.rest v w ws k.reach_s
                self_low);
          gap =
              past-IsGap prev v k.gap
                (inr (inr (Reach-IsEnd prev self.head self.rest v w ws k.reach_s)));
          reach_s =
              Reach-next q self.head self.rest v w ws m.1
                (Reach-more prev q self.head self.rest (vma_at v (w ∷ ws)) m.0 k.reach_s);
          reach_t = Reach-more prev q tgt.head tgt.rest t m.0 k.reach_t;
          enough = let e = k.enough in omega (arith, e);
        })

    -- A round that moves the pointer into the target's regions.
    move_t :
        (s t : Cursor)
        → ltb (start_of task_size t) (add64 prev vma_len) ≡ true
        → Looks (suc fuel) prev s t
        → HintResult task_size vma_len tgt self (elim t [
          | end_vma ↦ err
          | vma_at v vs ↦ elim vs [
            | [] ↦ vma_hint fuel task_size vma_len prev s end_vma
            | w ∷ ws ↦ vma_hint fuel task_size vma_len (past prev v) s (vma_at w ws)
          ]
        ])
    move_t s end_vma full k =
        no_room prev k.gap (omega (arith, ltb→lt _ _ full, sum prev k.low))
          (inl (Reach-ends prev tgt.head tgt.rest k.reach_t))
    move_t s (vma_at v []) full k = later prev s end_vma (record {
      above = k.above;
      low = k.low;
      gap = k.gap;
      reach_s = k.reach_s;
      reach_t = Reach-last prev tgt.head tgt.rest v k.reach_t;
      enough = let e = k.enough in omega (arith, e);
    })
    move_t s (vma_at v (w ∷ ws)) full k =
        let m = past_more prev v in
        let q = past prev v in
        later q s (vma_at w ws) (record {
          above = let a = k.above in let m0 = m.0 in omega (arith, a, m0);
          low = past_low prev v k.low (
              Reach-AllButLast (λ u. u.end ≤ task_size) prev tgt.head tgt.rest v w ws k.reach_t
                tgt_low);
          gap =
              past-IsGap prev v k.gap
                (inr (inl (Reach-IsEnd prev tgt.head tgt.rest v w ws k.reach_t)));
          reach_s = Reach-more prev q self.head self.rest s m.0 k.reach_s;
          reach_t =
              Reach-next q tgt.head tgt.rest v w ws m.1
                (Reach-more prev q tgt.head tgt.rest (vma_at v (w ∷ ws)) m.0 k.reach_t);
          enough = let e = k.enough in omega (arith, e);
        })

  vma_hint-HintResult :
      (fuel prev : ℕ) (s t : Cursor)
      → Looks fuel prev s t
      → HintResult task_size vma_len tgt self (vma_hint fuel task_size vma_len prev s t)
  unfolding vma_hint
  vma_hint-HintResult zero prev s t k = let e = k.enough in absurd (omega (arith, e))
  vma_hint-HintResult (suc fuel) prev s t k =
      let later = λ (p : ℕ) (s2 t2 : Cursor).
        λ (k2 : Looks fuel p s2 t2). vma_hint-HintResult fuel p s2 t2 k2 in
      elim (Bool-cases (ltb (start_of task_size s) (add64 prev vma_len))) [
        | inl a ↦ rw (vma_hint, a) (move_s fuel prev later s t a k)
        | inr a ↦ elim (Bool-cases (ltb (start_of task_size t) (add64 prev vma_len))) [
          | inl b ↦ rw (vma_hint, a, b) (move_t fuel prev later s t b k)
          | inr b ↦
              rw (vma_hint, a, b)
                (hint prev k.gap k.above
                  (room_after task_size prev vma_len tgt.head tgt.rest t tgt_ordered k.reach_t
                    (omega (arith, not_ltb _ _ b, sum prev k.low)))
                  (room_after task_size prev vma_len self.head self.rest s self_ordered k.reach_s
                    (omega (arith, not_ltb _ _ a, sum prev k.low))))
        ]
      ]

  -- On two lists of regions that ascend, with all but the last of each below TASK_SIZE, and for a length that does not
  -- overflow a `long` there, restorer_get_vma_hint ends. It returns 65536, or the end of a region but the last of its
  -- list, from which `vma_len` bytes meet no region of either list but, possibly, the last one, which it never looks
  -- at once it is in the way. Or it fails, and then there is such an address behind all regions but the last of one of
  -- the lists from which fewer than `vma_len` bytes are left up to TASK_SIZE.
  pub restorer_get_vma_hint-HintResult :
      HintResult task_size vma_len tgt self (restorer_get_vma_hint task_size tgt self vma_len)
  unfolding restorer_get_vma_hint
  restorer_get_vma_hint-HintResult =
      vma_hint-HintResult (length self.rest + length tgt.rest + 5) (page_size * 16)
        (vma_at self.head self.rest) (vma_at tgt.head tgt.rest)
        (record {
          above = omega arith;
          low = fits.0;
          gap = inl refl;
          reach_s = reach_at self.head self.rest;
          reach_t = reach_at tgt.head tgt.rest;
          enough = omega arith;
        })
