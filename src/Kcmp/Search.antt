-- ===== src/Kcmp/Search.antt =====
-- The loops of kcmp-ids.c on a tree, seen on the list of its nodes.
use crtools.Base.{
  ℕ, none, some, List, [], ◌∷◌, ◌++◌, map, ◌≡◌, refl, ap, sym, ◌⊎◌, inl, inr, All, All-append,
  subst, ◌<◌,
}
use crtools.Base.Order.{
  Inserted, here, there, Inserted-append_left, Inserted-append_right, Inserted-map, All-Inserted,
  All-left, All-right, Ascends, Ascends-Around, Around-Ascends,
}
use crtools.Kcmp.{Tree, leaf, node, Turn, left, right, stop, find, link, put}

abbrev pub inorder {ℓ} : {A : Type ℓ} → Tree A → List A
inorder leaf = []
inorder (node l x r) = inorder l ++ x ∷ inorder r

pub Turn-cases : (t : Turn) → (t ≡ left) ⊎ ((t ≡ right) ⊎ (t ≡ stop))
Turn-cases left = inl refl
Turn-cases right = inr (inl refl)
Turn-cases stop = inr (inr refl)

module _ {ℓ} {A : Type ℓ} (turn : A → Turn) where
  pub link-Inserted :
      (a : A) (t : Tree A) → find turn t ≡ none → Inserted a (inorder t) (inorder (link turn a t))
  link-Inserted a leaf e = here []
  link-Inserted a (node l x r) e = elim (Turn-cases (turn x)) [
    | inl h ↦
        rw (link, h) (Inserted-append_right (x ∷ inorder r) (link-Inserted a l (rw (find, h) at e)))
    | inr (inl h) ↦
        rw (link, h)
          (Inserted-append_left (inorder l) (there x (link-Inserted a r (rw (find, h) at e))))
    | inr (inr h) ↦ let e2 : some x ≡ none = (rw (find, h) at e) in absurd (cc)
  ]

  pub put_self : (a : A) (t : Tree A) → find turn t ≡ some a → put turn a t ≡ t
  put_self a leaf e = cc
  put_self a (node l x r) e = elim (Turn-cases (turn x)) [
    | inl h ↦ rw (put, h) (ap (λ t. node t x r) (put_self a l (rw (find, h) at e)))
    | inr (inl h) ↦ rw (put, h) (ap (node l x) (put_self a r (rw (find, h) at e)))
    | inr (inr h) ↦
        let e2 : some x ≡ some a = (rw (find, h) at e) in rw (put, h) (ap (λ y. node l y r) (cc))
  ]

  pub find-All {κ} :
      (P : A → Type κ) (a : A) (t : Tree A) → find turn t ≡ some a → All P (inorder t) → P a
  find-All P a leaf e p = absurd (cc)
  find-All P a (node l x r) e p =
      let q = All-right P (inorder l) (x ∷ inorder r) p in
      elim (Turn-cases (turn x)) [
        | inl h ↦ find-All P a l (rw (find, h) at e) (All-left P (inorder l) (x ∷ inorder r) p)
        | inr (inl h) ↦ find-All P a r (rw (find, h) at e) q.1
        | inr (inr h) ↦
            let e2 : some x ≡ some a = (rw (find, h) at e) in
            let same : x ≡ a = cc in subst P same q.0
      ]

  pub find-Inserted :
      (a : A) (t : Tree A) → find turn t ≡ some a → (rest : List A) × Inserted a rest (inorder t)
  find-Inserted a leaf e = absurd (cc)
  find-Inserted a (node l x r) e = elim (Turn-cases (turn x)) [
    | inl h ↦
        let (rest, i) = find-Inserted a l (rw (find, h) at e) in
        (rest ++ x ∷ inorder r, Inserted-append_right (x ∷ inorder r) i)
    | inr (inl h) ↦
        let (rest, i) = find-Inserted a r (rw (find, h) at e) in
        (inorder l ++ x ∷ rest, Inserted-append_left (inorder l) (there x i))
    | inr (inr h) ↦
        let e2 : some x ≡ some a = (rw (find, h) at e) in
        let same : x ≡ a = cc in
        (
          inorder l ++ inorder r,
          Inserted-append_left (inorder l)
              (subst (λ y. Inserted a (inorder r) (y ∷ inorder r)) (sym same) (here (inorder r))),
        )
  ]

  pub find-stop : (a : A) (t : Tree A) → find turn t ≡ some a → turn a ≡ stop
  find-stop a leaf e = absurd (cc)
  find-stop a (node l x r) e = elim (Turn-cases (turn x)) [
    | inl h ↦ find-stop a l (rw (find, h) at e)
    | inr (inl h) ↦ find-stop a r (rw (find, h) at e)
    | inr (inr h) ↦ let e2 : some x ≡ some a = (rw (find, h) at e) in cc
  ]

  pub put-All {κ} :
      (P : A → Type κ) (b : A) (t : Tree A)
      → P b
      → All P (inorder t)
      → All P (inorder (put turn b t))
  put-All P b leaf q p = tt
  put-All P b (node l x r) q p =
      let pl = All-left P (inorder l) (x ∷ inorder r) p in
      let pr = All-right P (inorder l) (x ∷ inorder r) p in
      elim (Turn-cases (turn x)) [
        | inl h ↦
            rw (put, h)
              (All-append P (inorder (put turn b l)) (x ∷ inorder r) (put-All P b l q pl) pr)
        | inr (inl h) ↦
            rw (put, h)
              (All-append P (inorder l) (x ∷ inorder (put turn b r)) pl
                (pr.0, put-All P b r q pr.1))
        | inr (inr h) ↦ rw (put, h) (All-append P (inorder l) (b ∷ inorder r) pl (q, pr.1))
      ]

module _ {ℓ κ} {A : Type ℓ} {B : Type κ} (f : A → B) where
  pub map_middle :
      (xs : List A) (x : A) (ys : List A) → map f (xs ++ x ∷ ys) ≡ map f xs ++ f x ∷ map f ys
  map_middle [] x ys = refl
  map_middle (z ∷ xs) x ys = ap (◌∷◌ (f z)) (map_middle xs x ys)

module _ {ℓ} {A : Type ℓ} (turn : A → Turn) (key : A → ℕ) where
  pub map-inorder-put :
      (a b : A) (t : Tree A)
      → key b ≡ key a
      → find turn t ≡ some a
      → map key (inorder (put turn b t)) ≡ map key (inorder t)
  map-inorder-put a b leaf k e = refl
  map-inorder-put a b (node l x r) k e = elim (Turn-cases (turn x)) [
    | inl h ↦
        let ih = map-inorder-put a b l k (rw (find, h) at e) in
        rw (put, h, map_middle key (inorder (put turn b l)) x (inorder r), ih)
          (sym (map_middle key (inorder l) x (inorder r)))
    | inr (inl h) ↦
        let ih = map-inorder-put a b r k (rw (find, h) at e) in
        rw (put, h, map_middle key (inorder l) x (inorder (put turn b r)), ih)
          (sym (map_middle key (inorder l) x (inorder r)))
    | inr (inr h) ↦
        let e2 : some x ≡ some a = (rw (find, h) at e) in
        let same : x ≡ a = cc in
        rw (put, h, map_middle key (inorder l) b (inorder r), k, sym (ap key same))
          (sym (map_middle key (inorder l) x (inorder r)))
  ]

  -- In a tree that ascends, the loop that goes by the key puts the new node in its place.
  pub link-Ascends :
      (a : A) (goes_left : (y : A) → turn y ≡ left → key a < key y)
      (goes_right : (y : A) → turn y ≡ right → key y < key a) (t : Tree A)
      → find turn t ≡ none
      → Ascends (map key (inorder t))
      → Ascends (map key (inorder (link turn a t)))
  link-Ascends a gl gr leaf e s = (tt, tt)
  link-Ascends a gl gr (node l x r) e s =
      let w =
        Ascends-Around (map key (inorder l)) (key x) (map key (inorder r))
          (subst Ascends (map_middle key (inorder l) x (inorder r)) s) in
      elim (Turn-cases (turn x)) [
        | inl h ↦
            let e2 = (rw (find, h) at e) in
            let l2 = link turn a l in
            rw (link, h)
              (subst Ascends (sym (map_middle key (inorder l2) x (inorder r))) (
                Around-Ascends (map key (inorder l2)) (key x) (map key (inorder r)) (record {
                  left = link-Ascends a gl gr l e2 w.left;
                  above = w.above;
                  right = w.right;
                  below =
                      All-Inserted (λ y. y < key x) (Inserted-map key (link-Inserted turn a l e2))
                        (gl x h) w.below;
                })))
        | inr (inl h) ↦
            let e2 = (rw (find, h) at e) in
            let r2 = link turn a r in
            rw (link, h)
              (subst Ascends (sym (map_middle key (inorder l) x (inorder r2))) (
                Around-Ascends (map key (inorder l)) (key x) (map key (inorder r2)) (record {
                  left = w.left;
                  below = w.below;
                  right = link-Ascends a gl gr r e2 w.right;
                  above =
                      All-Inserted (λ y. key x < y) (Inserted-map key (link-Inserted turn a r e2))
                        (gr x h) w.above;
                })))
        | inr (inr h) ↦ let e2 : some x ≡ none = (rw (find, h) at e) in absurd (cc)
      ]
