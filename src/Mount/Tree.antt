-- ===== src/Mount/Tree.antt =====
-- mnt_resort_siblings of mount.c: what it keeps, and the order that it leaves.
use crtools.Base.{
  ℕ, ◌≤◌, ◌<◌, ◌≡◌, refl, sym, subst, inl, inr, none, some, Option-cases, Bool-cases, List, [], ◌∷◌,
  ◌++◌, append-nil, append_assoc, leb, leb→le, not_leb, arith,
}
use mathlib.Core.List.{Perm, perm_append_comm}
use mathlib.Core.List.Perm
use crtools.Mount.{
  Link, MntTree, MntForest, node, nil, cons, mount_of, mnt_depth, add_behind, add_sibling,
  mnt_resort_siblings, resort_all,
}

-- The links of a tree: each mount with the id of its parent.
abbrev mutual
  pub links : MntTree → List Link
  links (node m cs) = links_below m.mnt_id cs

  pub links_below : ℕ → MntForest → List Link
  links_below i nil = []
  links_below i (cons c cs) = (i, mount_of c) ∷ links c ++ links_below i cs

abbrev chunk : ℕ → MntTree → List Link
chunk i c = (i, mount_of c) ∷ links c

abbrev pub depth_of : MntTree → ℕ
depth_of t = mnt_depth (mount_of t)

abbrev AllDeeper : ℕ → MntForest → Type 0
AllDeeper d nil = Unit {0}
AllDeeper d (cons c cs) = (d ≤ depth_of c) × AllDeeper d cs

-- The first child has the fewest slashes.
abbrev pub IsShallowFirst : MntForest → Type 0
IsShallowFirst nil = Unit {0}
IsShallowFirst (cons c cs) = AllDeeper (depth_of c) cs

abbrev mutual
  -- The same of every mount below.
  pub IsResorted : MntTree → Type 0
  IsResorted (node m cs) = IsShallowFirst cs × AllResorted cs

  pub AllResorted : MntForest → Type 0
  AllResorted nil = Unit {0}
  AllResorted (cons c cs) = IsResorted c × AllResorted cs

swap_front {ℓ} : {A : Type ℓ} (xs ys zs : List A) → Perm (xs ++ (ys ++ zs)) (ys ++ (xs ++ zs))
swap_front xs ys zs =
    rw (sym (append_assoc xs ys zs), sym (append_assoc ys xs zs))
      (Perm.append_right zs (perm_append_comm xs ys))

behind-links :
    (i : ℕ) (m : MntTree) (list out : MntForest)
    → add_behind m list ≡ some out
    → Perm (links_below i out) (chunk i m ++ links_below i list)
behind-links i m nil out e = absurd (cc)
behind-links i m (cons p ps) out e = elim (Bool-cases (leb (depth_of p) (depth_of m))) [
  | inl h ↦
      let e2 : some (cons p (cons m ps)) ≡ some out = (rw (add_behind, h) at e) in
      let same : out ≡ cons p (cons m ps) = cc in
      rw same (swap_front (chunk i p) (chunk i m) (links_below i ps))
  | inr h ↦ elim (Option-cases (add_behind m ps)) [
    | inl n ↦ let e2 : none ≡ some out = (rw (add_behind, h, n) at e) in absurd (cc)
    | inr (l, n) ↦
        let e2 : some (cons p l) ≡ some out = (rw (add_behind, h, n) at e) in
        let same : out ≡ cons p l = cc in
        rw same (
          Perm.trans (Perm.append_left (chunk i p) (behind-links i m ps l n))
            (swap_front (chunk i p) (chunk i m) (links_below i ps)))
  ]
]

sibling-links :
    (i : ℕ) (m : MntTree) (list : MntForest)
    → Perm (links_below i (add_sibling m list)) (chunk i m ++ links_below i list)
sibling-links i m list = elim (Option-cases (add_behind m list)) [
  | inl n ↦ rw (add_sibling, n) Perm.rfl
  | inr (l, n) ↦ rw (add_sibling, n) (behind-links i m list l n)
]

mount_of-resort : (t : MntTree) → mount_of (mnt_resort_siblings t) ≡ mount_of t
unfolding mnt_resort_siblings
mount_of-resort (node m cs) = refl

mutual
  unfolding mnt_resort_siblings

  resort-links : (t : MntTree) → Perm (links (mnt_resort_siblings t)) (links t)
  resort-links (node m cs) = rw append-nil at (resort_all-links m.mnt_id cs nil)

  resort_all-links :
      (i : ℕ) (cs list : MntForest)
      → Perm (links_below i (resort_all cs list)) (links_below i cs ++ links_below i list)
  resort_all-links i nil list = Perm.rfl
  resort_all-links i (cons c cs) list =
      let r = mnt_resort_siblings c in
      let below = links_below i list in
      let kept : Perm (chunk i r) (chunk i c) =
        rw (mount_of-resort c) (Perm.cons (i, mount_of c) (resort-links c)) in
      Perm.trans (resort_all-links i cs (add_sibling r list)) (
        Perm.trans
          (Perm.append_left (links_below i cs)
            (Perm.trans (sibling-links i r list) (Perm.append_right below kept)))
          (rw (append_assoc (chunk i c) (links_below i cs) below)
            (swap_front (links_below i cs) (chunk i c) below)))

-- Nothing is put behind an entry that is deeper.
behind-deeper :
    (m : MntTree) (d : ℕ) (list : MntForest)
    → depth_of m < d
    → AllDeeper d list
    → add_behind m list ≡ none
behind-deeper m d nil l a = refl
behind-deeper m d (cons p ps) l a = elim (Bool-cases (leb (depth_of p) (depth_of m))) [
  | inl h ↦ let le = leb→le _ _ h in let a0 = a.0 in absurd (omega (arith, le, l, a0))
  | inr h ↦ rw (add_behind, h, behind-deeper m d ps l a.1) refl
]

behind-none :
    (m : MntTree) (list : MntForest) → add_behind m list ≡ none → AllDeeper (depth_of m) list
behind-none m nil e = tt
behind-none m (cons p ps) e = elim (Bool-cases (leb (depth_of p) (depth_of m))) [
  | inl h ↦ let e2 : some (cons p (cons m ps)) ≡ none = (rw (add_behind, h) at e) in absurd (cc)
  | inr h ↦ elim (Option-cases (add_behind m ps)) [
    | inl n ↦ (let l = not_leb _ _ h in omega (arith, l), behind-none m ps n)
    | inr (l, n) ↦ let e2 : some (cons p l) ≡ none = (rw (add_behind, h, n) at e) in absurd (cc)
  ]
]

sibling-first :
    (m : MntTree) (list : MntForest) → IsShallowFirst list → IsShallowFirst (add_sibling m list)
sibling-first m nil s = tt
sibling-first m (cons p ps) s = elim (Bool-cases (leb (depth_of p) (depth_of m))) [
  | inl h ↦ rw (add_sibling, add_behind, h) (leb→le _ _ h, s)
  | inr h ↦
      let n = behind-deeper m (depth_of p) ps (not_leb _ _ h) s in
      rw (add_sibling, add_behind, h, n)
        (let l = not_leb _ _ h in omega (arith, l), behind-none m ps n)
]

behind-AllResorted :
    (m : MntTree) (list out : MntForest)
    → IsResorted m
    → AllResorted list
    → add_behind m list ≡ some out
    → AllResorted out
behind-AllResorted m nil out r a e = absurd (cc)
behind-AllResorted m (cons p ps) out r a e = elim (Bool-cases (leb (depth_of p) (depth_of m))) [
  | inl h ↦
      let e2 : some (cons p (cons m ps)) ≡ some out = (rw (add_behind, h) at e) in
      let same : cons p (cons m ps) ≡ out = cc in subst AllResorted same (a.0, (r, a.1))
  | inr h ↦ elim (Option-cases (add_behind m ps)) [
    | inl n ↦ let e2 : none ≡ some out = (rw (add_behind, h, n) at e) in absurd (cc)
    | inr (l, n) ↦
        let e2 : some (cons p l) ≡ some out = (rw (add_behind, h, n) at e) in
        let same : cons p l ≡ out = cc in
        subst AllResorted same (a.0, behind-AllResorted m ps l r a.1 n)
  ]
]

sibling-AllResorted :
    (m : MntTree) (list : MntForest)
    → IsResorted m
    → AllResorted list
    → AllResorted (add_sibling m list)
sibling-AllResorted m list r a = elim (Option-cases (add_behind m list)) [
  | inl n ↦ rw (add_sibling, n) (r, a)
  | inr (l, n) ↦ rw (add_sibling, n) (behind-AllResorted m list l r a n)
]

mutual
  unfolding mnt_resort_siblings

  resort-IsResorted : (t : MntTree) → IsResorted (mnt_resort_siblings t)
  resort-IsResorted (node m cs) = resort_all-IsResorted cs nil tt tt

  resort_all-IsResorted :
      (cs list : MntForest)
      → IsShallowFirst list
      → AllResorted list
      → IsShallowFirst (resort_all cs list) × AllResorted (resort_all cs list)
  resort_all-IsResorted nil list s a = (s, a)
  resort_all-IsResorted (cons c cs) list s a =
      let r = mnt_resort_siblings c in
      resort_all-IsResorted cs (add_sibling r list) (sibling-first r list s)
        (sibling-AllResorted r list (resort-IsResorted c) a)

-- mnt_resort_siblings leaves every mount below its parent and loses none; at every mount, the child
-- whose path has the fewest slashes comes first (the source means the one with the most).
pub mnt_resort_siblings-IsResorted :
    (t : MntTree)
    → Perm (links (mnt_resort_siblings t)) (links t) × IsResorted (mnt_resort_siblings t)
mnt_resort_siblings-IsResorted t = (resort-links t, resort-IsResorted t)
