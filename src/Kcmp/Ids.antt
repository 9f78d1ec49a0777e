-- ===== src/Kcmp/Ids.antt =====
-- What kid_generate_gen and kid_generate_sub of kcmp-ids.c return.
use crtools.Base.{
  ℕ, zero, suc, ◌+◌, ◌%◌, ◌^◌, ◌≤◌, ◌<◌, true, false, Bool-cases, Option, none, some, Option-cases,
  List, [], ◌∷◌, ◌++◌, map, append_assoc, ◌≡◌, ◌≢◌, refl, sym, ap, subst, ◌∙◌, inl, inr, Res, ok,
  bug, ◌==◌, ==_iff, All, ℤ, pos, negsuc, arith,
}
use crtools.Base.Order.{
  Inserted, here, there, Inserted-append_left, Inserted-append_right, Inserted-map, All-Inserted,
  All-imp, Ascends, Distinct, Distinct-Inserted, length-Inserted,
}
use crtools.Kcmp.{
  Tree, leaf, node, KidElem, KidSub, KidEntry, KidTree, Kernel, Turn, left, right, stop, find, link,
  is_leaf, put, turn_gen, turn_ret, kcmp, turn_sub, alloc_kid_entry, SubId, kid_generate_sub, GenId,
  kid_generate_gen,
}
use crtools.Kcmp.Search.{
  inorder, Turn-cases, link-Inserted, put_self, find-stop, find-All, find-Inserted, put-All,
  map-inorder-put, link-Ascends,
}

-- All objects of a tree, each with its id.
abbrev pub subs_of : List KidEntry → List KidSub
subs_of [] = []
subs_of (e ∷ es) = inorder e.subtree ++ subs_of es

abbrev pub objects : KidTree → List KidSub
objects tree = subs_of (inorder tree.root)

abbrev pub key : KidEntry → ℕ
key e = e.self.elem.genid

abbrev pub subid_of : KidSub → ℕ
subid_of s = s.subid

abbrev pub IsGen : ℕ → KidSub → Type 0
IsGen g s = s.elem.genid ≡ g

-- An entry's subtree has the entry's general id only, and is not empty.
pub record IsEntry (e : KidEntry) : Type 0 where
  pub same : All (IsGen (key e)) (inorder e.subtree)
  pub filled : e.subtree ≢ leaf

pub record IsTree (tree : KidTree) : Type 0 where
  pub ascends : Ascends (map key (inorder tree.root))
  pub entries : All IsEntry (inorder tree.root)
  pub started : 0 < tree.subid
  pub word : tree.subid ≤ 2 ^ 32
  pub below : All (λ (i : ℕ). (0 < i) × (i < tree.subid)) (map subid_of (objects tree))
  pub distinct : Distinct (map subid_of (objects tree))

-- `rb_link_and_balance` keeps the order of the nodes.
pub record IsBalance (k : Kernel) : Type 0 where
  pub keeps : (t : Tree KidEntry) → inorder (k.balance t) ≡ inorder t
  pub keeps_sub : (t : Tree KidSub) → inorder (k.balance_sub t) ≡ inorder t

subs_of-append : (xs ys : List KidEntry) → subs_of (xs ++ ys) ≡ subs_of xs ++ subs_of ys
subs_of-append [] ys = refl
subs_of-append (x ∷ xs) ys =
    rw (subs_of-append xs ys) (sym (append_assoc (inorder x.subtree) (subs_of xs) (subs_of ys)))

module _ (s : KidSub) where
  -- A new entry that holds one object adds that object.
  entry-Inserted :
      (e : KidEntry) {xs ys : List KidEntry}
      → inorder e.subtree ≡ s ∷ []
      → Inserted e xs ys
      → Inserted s (subs_of xs) (subs_of ys)
  entry-Inserted e h (here xs) = rw h (here (subs_of xs))
  entry-Inserted e h (there x i) = Inserted-append_left (inorder x.subtree) (entry-Inserted e h i)

  -- An entry that has got one more object.
  put-Inserted :
      (turn : KidEntry → Turn) (a b : KidEntry) (t : Tree KidEntry)
      → Inserted s (inorder a.subtree) (inorder b.subtree)
      → find turn t ≡ some a
      → Inserted s (subs_of (inorder t)) (subs_of (inorder (put turn b t)))
  put-Inserted turn a b leaf i e = absurd (cc)
  put-Inserted turn a b (node l x r) i e = elim (Turn-cases (turn x)) [
    | inl h ↦
        let ih = put-Inserted turn a b l i (rw (find, h) at e) in
        rw
          (
            put,
            h,
            subs_of-append (inorder l) (x ∷ inorder r),
            subs_of-append (inorder (put turn b l)) (x ∷ inorder r),
          )
          (Inserted-append_right (subs_of (x ∷ inorder r)) ih)
    | inr (inl h) ↦
        let ih = put-Inserted turn a b r i (rw (find, h) at e) in
        rw
          (
            put,
            h,
            subs_of-append (inorder l) (x ∷ inorder r),
            subs_of-append (inorder l) (x ∷ inorder (put turn b r)),
          )
          (Inserted-append_left (subs_of (inorder l)) (Inserted-append_left (inorder x.subtree) ih))
    | inr (inr h) ↦
        let e2 : some x ≡ some a = (rw (find, h) at e) in
        let same : x ≡ a = cc in
        rw
          (
            put,
            h,
            subs_of-append (inorder l) (x ∷ inorder r),
            subs_of-append (inorder l) (b ∷ inorder r),
            same,
          )
          (Inserted-append_left (subs_of (inorder l))
            (Inserted-append_right (subs_of (inorder r)) i))
  ]

not_zero : (n : ℕ) → (n == 0) ≡ false → 0 < n
not_zero n h = ground arith

module _ (elem : KidElem) (y : KidEntry) where
  turn-gen_left : turn_gen elem y ≡ left → elem.genid < key y
  unfolding turn_gen
  turn-gen_left e = ground arith

  turn-gen_right : turn_gen elem y ≡ right → key y < elem.genid
  unfolding turn_gen
  turn-gen_right e = ground arith

  turn-gen_stop : turn_gen elem y ≡ stop → key y ≡ elem.genid
  unfolding turn_gen
  turn-gen_stop e = ground arith

turn_ret-stop : (ret : ℤ) → turn_ret ret ≡ stop → ret ≡ pos 0
unfolding turn_ret
turn_ret-stop (pos zero) e = refl
turn_ret-stop (pos (suc n)) e = absurd (cc)
turn_ret-stop (negsuc n) e = absurd (cc)

pub is_leaf-false {ℓ} : {A : Type ℓ} (t : Tree A) → t ≢ leaf → is_leaf t ≡ false
is_leaf-false leaf n = absurd (n refl)
is_leaf-false (node l x r) n = refl

Inserted-filled {ℓ} : {A : Type ℓ} {a : A} {xs : List A} → ¬ Inserted a xs []
Inserted-filled i = let e = length-Inserted i in absurd (omega (arith, e))

filled_one : {s : KidSub} (t : Tree KidSub) → inorder t ≡ s ∷ [] → t ≢ leaf
filled_one leaf e l = cc
filled_one (node l x r) e h = cc

All-of {κ} :
    (P : KidSub → Type κ) (s : KidSub) {xs ys : List KidSub} → Inserted s xs ys → All P ys → P s
All-of P s (here xs) p = p.0
All-of P s (there x i) p = All-of P s i p.1

-- An object of an entry is one of the tree.
within :
    (s : KidSub) (e : KidEntry) (rest : List KidSub) {es fs : List KidEntry}
    → Inserted s rest (inorder e.subtree)
    → Inserted e es fs
    → (more : List KidSub) × Inserted s more (subs_of fs)
within s e rest i (here xs) = (rest ++ subs_of xs, Inserted-append_right (subs_of xs) i)
within s e rest i (there x j) =
    let (more, m) = within s e rest i j in
    (inorder x.subtree ++ more, Inserted-append_left (inorder x.subtree) m)

-- The object that a call makes, with the next id.
abbrev pub new_sub : KidTree → KidElem → KidSub
new_sub tree elem = record { subid = tree.subid; elem = elem }

module _ (k : Kernel) (b : IsBalance k) (tree : KidTree) (t : IsTree tree) (elem : KidElem) where
  data Allocs (r : Res (Option KidEntry × KidTree)) : Type 0 where
    nothing : k.xmalloc ≡ false → r ≡ ok (none, tree) → Allocs r
    spent : tree.subid ≡ 2 ^ 32 → r ≡ bug → Allocs r
    allocs :
        (e : KidEntry)
        → e.self ≡ new_sub tree elem
        → inorder e.subtree ≡ new_sub tree elem ∷ []
        → tree.subid < 2 ^ 32
        → r ≡ ok (some e, record tree { subid = suc tree.subid })
        → Allocs r

  alloc_kid_entry-Allocs : Allocs (alloc_kid_entry k tree elem)
  unfolding alloc_kid_entry
  alloc_kid_entry-Allocs = elim (Bool-cases k.xmalloc) [
    | inr h ↦ nothing h (rw (alloc_kid_entry, h))
    | inl h ↦ elim (Bool-cases (tree.subid % 2 ^ 32 == 0)) [
      | inl z ↦
          let zero_id = (==_iff (tree.subid % 2 ^ 32) 0).0 z in
          let w = t.word in let s = t.started in spent (omega (arith, zero_id, w, s)) (rw (h, z))
      | inr z ↦
          let small = not_zero (tree.subid % 2 ^ 32) z in
          let w = t.word in
          let less : tree.subid < 2 ^ 32 = omega (arith, small, w) in
          let id : tree.subid % 2 ^ 32 ≡ tree.subid = omega (arith, less) in
          let next : (tree.subid + 1) % 2 ^ 64 ≡ suc tree.subid = omega (arith, less) in
          let self : KidSub = record { subid = tree.subid % 2 ^ 32; elem = elem } in
          let same : self ≡ new_sub tree elem =
            ap (λ (n : ℕ). record { subid = n; elem = elem }) id in
          allocs (record { self = self; subtree = k.balance_sub (node leaf self leaf) }) same
            (rw (b.keeps_sub (node leaf self leaf)) (ap (λ x. x ∷ []) same)) less
            (rw (h, z, next) refl)
    ]
  ]

  -- A tree that has got the new object is valid if its general ids are.
  grown-IsTree :
      (root : Tree KidEntry)
      → Ascends (map key (inorder root))
      → All IsEntry (inorder root)
      → tree.subid < 2 ^ 32
      → Inserted (new_sub tree elem) (objects tree) (subs_of (inorder root))
      → IsTree (record { root = root; kcmp_type = tree.kcmp_type; subid = suc tree.subid })
  grown-IsTree root a es small i =
      let ids = Inserted-map subid_of i in
      let old = map subid_of (objects tree) in
      record {
        ascends = a;
        entries = es;
        started = omega arith;
        word = omega (arith, small);
        below =
            All-Inserted (λ (n : ℕ). (0 < n) × (n < suc tree.subid)) ids (t.started, omega arith)
              (All-imp (λ n h. (h.0, let h1 = h.1 in omega (arith, h1))) old t.below);
        distinct =
            Distinct-Inserted tree.subid ids
              (All-imp (λ n h. λ (e : tree.subid ≡ n). let h1 = h.1 in omega (arith, e, h1)) old
                t.below)
              t.distinct;
      }

  -- What kid_generate_gen comes back with.
  pub data GenResult (r : Res GenId) : Type 0 where
    known :
        (s : KidSub) (rest : List KidSub)
        → Inserted s rest (objects tree)
        → s.elem.genid ≡ elem.genid
        → kcmp k tree.kcmp_type s elem ≡ pos 0
        → r ≡ ok (record { id = s.subid; new_id = false; tree = tree })
        → GenResult r
    fresh :
        (root : Tree KidEntry)
        → Inserted (new_sub tree elem) (objects tree) (subs_of (inorder root))
        → IsTree (record { root = root; kcmp_type = tree.kcmp_type; subid = suc tree.subid })
        → r
          ≡ ok (record {
            id = tree.subid;
            new_id = true;
            tree = record { root = root; kcmp_type = tree.kcmp_type; subid = suc tree.subid };
          })
        → GenResult r
    no_memory :
        k.xmalloc ≡ false → r ≡ ok (record { id = 0; new_id = false; tree = tree }) → GenResult r
    no_id : tree.subid ≡ 2 ^ 32 → r ≡ bug → GenResult r

  -- Among the objects of the general id.
  data SubResult (e : KidEntry) (r : Res SubId) : Type 0 where
    sub_known :
        (s : KidSub) (rest : List KidSub)
        → Inserted s rest (inorder e.subtree)
        → kcmp k tree.kcmp_type s elem ≡ pos 0
        → r ≡ ok (record { id = s.subid; new_id = false; entry = e; tree = tree })
        → SubResult e r
    sub_fresh :
        (e2 : KidEntry)
        → e2.self ≡ e.self
        → Inserted (new_sub tree elem) (inorder e.subtree) (inorder e2.subtree)
        → tree.subid < 2 ^ 32
        → r
          ≡ ok (record {
            id = tree.subid;
            new_id = true;
            entry = e2;
            tree = record tree { subid = suc tree.subid };
          })
        → SubResult e r
    sub_no_memory :
        k.xmalloc ≡ false
        → r ≡ ok (record { id = 0; new_id = false; entry = e; tree = tree })
        → SubResult e r
    sub_no_id : tree.subid ≡ 2 ^ 32 → r ≡ bug → SubResult e r

  kid_generate_sub-SubResult :
      (e : KidEntry) → e.subtree ≢ leaf → SubResult e (kid_generate_sub k tree e elem)
  unfolding kid_generate_sub turn_sub
  kid_generate_sub-SubResult e f =
      let turn = turn_sub k tree.kcmp_type elem in
      let n = is_leaf-false e.subtree f in
      elim (Option-cases (find turn e.subtree)) [
        | inr (s, h) ↦
            let (rest, i) = find-Inserted turn s e.subtree h in
            sub_known s rest i
              (turn_ret-stop (kcmp k tree.kcmp_type s elem) (find-stop turn s e.subtree h))
              (rw (n, h) refl)
        | inl h ↦ elim alloc_kid_entry-Allocs [
          | nothing m a ↦ sub_no_memory m (rw (n, h, a) refl)
          | spent w a ↦ sub_no_id w (rw (n, h, a) refl)
          | allocs sub same one small a ↦
              sub_fresh (record e { subtree = k.balance_sub (link turn sub.self e.subtree) }) refl
                (rw (b.keeps_sub (link turn sub.self e.subtree), same)
                  (link-Inserted turn (new_sub tree elem) e.subtree h))
                small (rw (n, h, a, same) refl)
        ]
      ]

  -- An entry that has got one more object of its general id.
  grown-IsEntry :
      (e e2 : KidEntry)
      → IsEntry e
      → e2.self ≡ e.self
      → key e ≡ elem.genid
      → Inserted (new_sub tree elem) (inorder e.subtree) (inorder e2.subtree)
      → IsEntry e2
  grown-IsEntry e e2 ok_e same g i = record {
    same = rw same (All-Inserted (IsGen (key e)) i (sym g) ok_e.same);
    filled = λ l.
        Inserted-filled
          (subst (λ u. Inserted (new_sub tree elem) (inorder e.subtree) (inorder u)) l i);
  }

  -- On a valid tree, with a balancing that keeps the order of the nodes, kid_generate_gen returns the id of an object that has the same general id and that sys_kcmp calls equal, and leaves the tree
  -- as it is; or it adds exactly the new object under the next id, which no object had, sets `*new_id`, and
  -- the tree is valid again; or it returns 0 and changes nothing, when there is no memory; or it stops at
  -- the BUG_ON, when 2^32 - 1 ids are spent.
  pub kid_generate_gen-GenResult : GenResult (kid_generate_gen k tree elem)
  unfolding kid_generate_gen
  kid_generate_gen-GenResult = elim (Option-cases (find (turn_gen elem) tree.root)) [
    | inr (e, h) ↦
        let entry = find-All (turn_gen elem) IsEntry e tree.root h t.entries in
        let g = turn-gen_stop elem e (find-stop (turn_gen elem) e tree.root h) in
        elim (kid_generate_sub-SubResult e entry.filled) [
          | sub_known s rest i c r ↦
              let (others, j) = find-Inserted (turn_gen elem) e tree.root h in
              let (more, m) = within s e rest i j in
              known s more m (All-of (IsGen (key e)) s i entry.same ∙ g) c
                (rw (kid_generate_gen, h, r, put_self (turn_gen elem) e tree.root h) refl)
          | sub_fresh e2 same i small r ↦
              fresh (put (turn_gen elem) e2 tree.root)
                (put-Inserted (new_sub tree elem) (turn_gen elem) e e2 tree.root i h)
                (grown-IsTree (put (turn_gen elem) e2 tree.root)
                  (rw
                    (map-inorder-put (turn_gen elem) key e e2 tree.root
                      (ap (λ s. s.elem.genid) same) h)
                    t.ascends)
                  (put-All (turn_gen elem) IsEntry e2 tree.root (grown-IsEntry e e2 entry same g i)
                    t.entries)
                  small (put-Inserted (new_sub tree elem) (turn_gen elem) e e2 tree.root i h))
                (rw (kid_generate_gen, h, r) refl)
          | sub_no_memory m r ↦
              no_memory m (rw (kid_generate_gen, h, r, put_self (turn_gen elem) e tree.root h) refl)
          | sub_no_id w r ↦ no_id w (rw (kid_generate_gen, h, r) refl)
        ]
    | inl h ↦ elim alloc_kid_entry-Allocs [
      | nothing m a ↦ no_memory m (rw (kid_generate_gen, h, a) refl)
      | spent w a ↦ no_id w (rw (kid_generate_gen, h, a) refl)
      | allocs e same one small a ↦
          let root = link (turn_gen elem) e tree.root in
          let ins = link-Inserted (turn_gen elem) e tree.root h in
          let k-e : key e ≡ elem.genid = ap (λ s. s.elem.genid) same in
          let i =
            subst (λ l. Inserted (new_sub tree elem) (objects tree) (subs_of l))
              (sym (b.keeps root)) (entry-Inserted (new_sub tree elem) e one ins) in
          fresh (k.balance root) i
            (grown-IsTree (k.balance root)
              (rw (b.keeps root) (
                link-Ascends (turn_gen elem) key e (λ y l. rw k-e (turn-gen_left elem y l))
                  (λ y l. rw k-e (turn-gen_right elem y l)) tree.root h t.ascends))
              (rw (b.keeps root) (
                All-Inserted IsEntry ins
                  (record { same = rw one (sym k-e, tt); filled = λ l. filled_one e.subtree one l })
                  t.entries))
              small i)
            (rw (kid_generate_gen, h, a, same) refl)
    ]
  ]
