-- ===== src/Kcmp/Spine.antt =====
-- The search of kid_generate_sub (kcmp-ids.c) with sys_kcmp as kcmp(2) documents it.
use crtools.Base.{
  ℕ, zero, suc, ◌%◌, ◌^◌, Bool, true, false, Bool-cases, Option, none, some, Option-cases, List, [],
  ◌∷◌, ◌≡◌, ◌≢◌, refl, inl, inr, Res, ok, bug, err, ◌==◌, if◌then◌else◌, arith, pos,
}
use crtools.Kcmp.{
  Tree, leaf, node, KidElem, KidSub, KidEntry, KidTree, Kernel, find, turn_ret, kcmp, turn_sub,
  alloc_kid_entry, SubId, kid_generate_sub,
}
use crtools.Kcmp.Ids.{is_leaf-false}

-- kcmp(2): 0 for equal, 1 for less, 2 for greater, 3 for no order; `n` is what it returns.
pub record IsDocumented (k : Kernel) : Type 0 where
  pub result : KidSub → KidElem → ℕ
  pub returned : (type : ℕ) (s : KidSub) (elem : KidElem) → kcmp k type s elem ≡ pos (result s elem)

-- The root, its right child, the right child of that, …
abbrev pub spine : Tree KidSub → List KidSub
spine leaf = []
spine (node l x r) = x ∷ spine r

abbrev pub first : (KidSub → Bool) → List KidSub → Option KidSub
first p [] = none
first p (x ∷ xs) = if p x then some x else first p xs

-- The id and `*new_id`.
abbrev pub reply : Res SubId → Res (ℕ × Bool)
reply (ok s) = ok (s.id, s.new_id)
reply err = err
reply bug = bug

-- A known object's id, or the next id.
abbrev pub answer : Kernel → KidTree → Option KidSub → Res (ℕ × Bool)
answer k tree (some s) = ok (s.subid, false)
answer k tree none =
    if k.xmalloc
    then (if tree.subid % 2 ^ 32 == 0 then bug else ok (tree.subid % 2 ^ 32, true))
    else ok (0, false)

suc_not_zero : (n : ℕ) → (suc n == 0) ≡ false
suc_not_zero n = ground arith

module _ (k : Kernel) (doc : IsDocumented k) (elem : KidElem) (type : ℕ) where
  find-first :
      (t : Tree KidSub)
      → find (turn_sub k type elem) t ≡ first (λ s. doc.result s elem == 0) (spine t)
  unfolding turn_sub turn_ret
  find-first leaf = refl
  find-first (node l x r) = go (doc.result x elem) refl (find-first r)
    where
      go :
          (n : ℕ)
          → doc.result x elem ≡ n
          → find (turn_sub k type elem) r ≡ first (λ s. doc.result s elem == 0) (spine r)
          → find (turn_sub k type elem) (node l x r)
            ≡ first (λ s. doc.result s elem == 0) (spine (node l x r))
      go zero e ih = rw (find, turn_sub, doc.returned type x elem, e) refl
      go (suc n) e ih = rw (find, turn_sub, doc.returned type x elem, e, suc_not_zero n) ih

module _ (k : Kernel) (tree : KidTree) (e : KidEntry) (elem : KidElem) where
  -- When sys_kcmp returns what kcmp(2) documents, kid_generate_sub looks only at the right spine of a
  -- subtree that is not empty: it returns the id of the first object on it for which sys_kcmp returns 0, and otherwise
  -- a new id (0 with no memory, a BUG_ON when the next one is 0), whatever objects hang to the left.
  pub kid_generate_sub-spine :
      (doc : IsDocumented k)
      → e.subtree ≢ leaf
      → reply (kid_generate_sub k tree e elem)
        ≡ answer k tree (first (λ s. doc.result s elem == 0) (spine e.subtree))
  unfolding kid_generate_sub alloc_kid_entry
  kid_generate_sub-spine doc f =
      let n = is_leaf-false e.subtree f in
      let w = find-first k doc elem tree.kcmp_type e.subtree in
      elim (Option-cases (first (λ s. doc.result s elem == 0) (spine e.subtree))) [
        | inr (s, h) ↦ rw (kid_generate_sub, n, w, h) refl
        | inl h ↦ elim (Bool-cases k.xmalloc) [
          | inr m ↦ rw (kid_generate_sub, n, w, h, alloc_kid_entry, m) refl
          | inl m ↦ elim (Bool-cases (tree.subid % 2 ^ 32 == 0)) [
            | inl z ↦ rw (kid_generate_sub, n, w, h, alloc_kid_entry, m, z) refl
            | inr z ↦ rw (kid_generate_sub, n, w, h, alloc_kid_entry, m, z) refl
          ]
        ]
      ]
