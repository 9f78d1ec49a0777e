-- ===== src/Mount/Valid.antt =====
-- validate_mounts of mount.c against what it asks of each mount.
use crtools.Base.{
  ◌<◌, ◌≡◌, ◌≢◌, refl, sym, ◌∙◌, ◌⊎◌, inl, inr, Bool, true, false, not, ◌&&◌, Bool-cases, none,
  some, Option-cases, List, [], ◌∷◌, ◌++◌, append-nil, subst, Res, ok, err, bug, ◌>>=◌, All, length,
  length-append, get_or, ltb, not_ltb, ltb→lt, lt→ltb, ◌==◌, ==_iff, if◌then◌else◌, ℤ, is_neg,
  arith,
}
use crtools.Base.Order.{All-imp, Inserted, here, there}
use crtools.Base.Strings.{Text, slash, strn_eq, strn_eq-StartsWith, strn_eq-append}
use crtools.Mount.{
  MountInfo, fsroot_mounted, mounts_equal, Linked, any, lacks_peer, skips, lacks_root, need_after,
  ask_plugin, covers, is_overmounted, validate_mount, validate_mounts,
}

-- The mount point `t` is a part of the path `m`, up to the end or a slash.
abbrev pub IsAbove : Text → Text → Type 0
IsAbove t m = (m ≡ t) ⊎ ((rest : Text) × (m ≡ t ++ slash ∷ rest))

-- An element of the list passes the test.
abbrev pub Some : (MountInfo → Bool) → List MountInfo → Type 0
Some p xs = (x : MountInfo) × (rest : List MountInfo) × Inserted x rest xs × (p x ≡ true)

any-true : (p : MountInfo → Bool) (xs : List MountInfo) → any p xs ≡ true → Some p xs
any-true p [] e = absurd (cc)
any-true p (x ∷ xs) e = elim (Bool-cases (p x)) [
  | inl h ↦ (x, xs, here xs, h)
  | inr h ↦ let (y, rest, i, q) = any-true p xs (rw (any, h) at e) in (y, x ∷ rest, there x i, q)
]

any-false :
    (p : MountInfo → Bool) (xs : List MountInfo) → any p xs ≡ false → All (λ x. p x ≡ false) xs
any-false p [] e = tt
any-false p (x ∷ xs) e = elim (Bool-cases (p x)) [
  | inl h ↦ let f : true ≡ false = (rw (any, h) at e) in absurd (cc)
  | inr h ↦ (h, any-false p xs (rw (any, h) at e))
]

Inserted-any :
    (p : MountInfo → Bool) (x : MountInfo) {rest xs : List MountInfo}
    → Inserted x rest xs
    → p x ≡ true
    → any p xs ≡ true
Inserted-any p x (here xs) e = rw e refl
Inserted-any p x (there y {ys = ys} i) e = elim (Bool-cases (p y)) [
  | inl h ↦ rw h refl
  | inr h ↦ rw h (Inserted-any p x i e)
]

All-any :
    (p : MountInfo → Bool) (xs : List MountInfo) → All (λ x. p x ≡ false) xs → any p xs ≡ false
All-any p [] a = refl
All-any p (x ∷ xs) a = rw (a.0) (All-any p xs a.1)

get_or-append : (t rest : Text) → get_or (t ++ rest) (length t) 0 ≡ get_or rest 0 0
get_or-append [] rest = refl
get_or-append (x ∷ t) rest = get_or-append t rest

rest-IsAbove : (t rest : Text) → (0 < length rest → get_or rest 0 0 ≡ slash) → IsAbove t (t ++ rest)
rest-IsAbove t [] h = inl (append-nil t)
rest-IsAbove t (x ∷ rest) h = inr (rest, rw (h (omega arith)) refl)

-- The length of the longer path, and the character behind the shorter one.
covers-next :
    (t rest : Text) → covers t (t ++ rest) ≡ true → 0 < length rest → get_or rest 0 0 ≡ slash
unfolding covers
covers-next t rest e long =
    let l = length-append t rest in
    let n : ltb (length (t ++ rest)) (length t) ≡ false = ground (arith, l) in
    let y : ltb (length t) (length (t ++ rest)) ≡ true = lt→ltb _ _ (omega (arith, l, long)) in
    let g = get_or-append t rest in
    elim (Bool-cases (get_or rest 0 0 == slash)) [
      | inl h ↦ (==_iff (get_or rest 0 0) slash).0 h
      | inr h ↦ let f : false ≡ true = (rw (n, strn_eq-append t rest, y, g, h) at e) in absurd (cc)
    ]

covers-IsAbove : (t m : Text) → covers t m ≡ true → IsAbove t m
unfolding covers
covers-IsAbove t m e = elim (Bool-cases (ltb (length m) (length t))) [
  | inl h ↦ let f : false ≡ true = (rw h at e) in absurd (cc)
  | inr h ↦ elim (Bool-cases (strn_eq (length t) t m)) [
    | inr g ↦ let f : false ≡ true = (rw (h, g) at e) in absurd (cc)
    | inl g ↦
        let (rest, r) = strn_eq-StartsWith t m (not_ltb (length m) (length t) h) g in
        let e2 = subst (λ m. covers t m ≡ true) r e in
        subst (IsAbove t) (sym r) (rest-IsAbove t rest (covers-next t rest e2))
  ]
]

covers-append :
    (t rest : Text) → (0 < length rest → get_or rest 0 0 ≡ slash) → covers t (t ++ rest) ≡ true
unfolding covers
covers-append t rest h =
    let l = length-append t rest in
    let n : ltb (length (t ++ rest)) (length t) ≡ false = ground (arith, l) in
    let g = get_or-append t rest in
    elim (Bool-cases (ltb (length t) (length (t ++ rest)))) [
      | inr y ↦ rw (n, strn_eq-append t rest, y) refl
      | inl y ↦
          let lt = ltb→lt (length t) (length (t ++ rest)) y in
          let same = (==_iff (get_or rest 0 0) slash).1 (h (omega (arith, l, lt))) in
          rw (n, strn_eq-append t rest, y, g, same) refl
    ]

IsAbove-covers : (t m : Text) → IsAbove t m → covers t m ≡ true
IsAbove-covers t m (inl e) =
    subst (λ u. covers t u ≡ true) (append-nil t ∙ sym e)
      (covers-append t [] (λ h. absurd (omega arith)))
IsAbove-covers t m (inr (rest, e)) = rw e (covers-append t (slash ∷ rest) (λ h. refl))

abbrev hits : MountInfo → MountInfo → Bool
hits m t = not (m.mnt_id == t.mnt_id) && covers t.mountpoint m.mountpoint

hits-false :
    (m t : MountInfo) → hits m t ≡ false → m.mnt_id ≢ t.mnt_id → ¬ IsAbove t.mountpoint m.mountpoint
hits-false m t e n a =
    let c = IsAbove-covers t.mountpoint m.mountpoint a in
    let z : (m.mnt_id == t.mnt_id) ≡ false = ground (arith, n) in
    let f : true ≡ false = (rw (z, c) at e) in cc

spared-hits :
    (m t : MountInfo)
    → (m.mnt_id ≢ t.mnt_id → ¬ IsAbove t.mountpoint m.mountpoint)
    → hits m t ≡ false
spared-hits m t h = elim (Bool-cases (m.mnt_id == t.mnt_id)) [
  | inl z ↦ rw z refl
  | inr z ↦ elim (Bool-cases (covers t.mountpoint m.mountpoint)) [
    | inr c ↦ rw (z, c) refl
    | inl c ↦
        let n : m.mnt_id ≢ t.mnt_id = λ e. (let y = (==_iff m.mnt_id t.mnt_id).1 e in cc) in
        absurd (h n (covers-IsAbove t.mountpoint m.mountpoint c))
  ]
]

module _ (plugin : MountInfo → ℤ) (call : Bool) (l : Linked) where
  -- The parent is shared, but its group has no other member.
  abbrev pub IsAlone : MountInfo → Type 0
  IsAlone p = (p.shared_id ≢ 0) × (l.peer_children ≡ none)

  -- A plugin takes the mount: it says so now, or it said so before.
  pub data IsTaken : Type 0 where
    asked : call ≡ true → is_neg (plugin l.mount) ≡ false → IsTaken
    marked : call ≡ false → l.mount.need_plugin ≡ true → IsTaken

  -- What validate_mounts asks of a mount with the parent `p`.
  pub record IsChecked (p : MountInfo) : Type 0 where
    -- the same mount is below the parent's peer
    pub peer :
        (cs : List MountInfo)
        → p.shared_id ≢ 0
        → l.peer_children ≡ some cs
        → Some (λ ct. mounts_equal l.mount ct false) cs
    -- the root of the file system is mounted, or a plugin takes the mount
    pub source : ((fsroot_mounted l.mount ≡ true) ⊎ Some fsroot_mounted l.binds) ⊎ IsTaken
    -- no other sibling is mounted on it or above it
    pub free :
        All (λ t. l.mount.mnt_id ≢ t.mnt_id → ¬ IsAbove t.mountpoint l.mount.mountpoint) l.siblings

  pub data IsValid : Type 0 where
    no_parent : l.parent ≡ none → IsValid
    alone : (p : MountInfo) → l.parent ≡ some p → IsAlone p → IsValid
    checked : (p : MountInfo) → l.parent ≡ some p → IsChecked p → IsValid

  module _ (p : MountInfo) (has : l.parent ≡ some p) where
    lacks_peer-false :
        lacks_peer l ≡ false
        → (cs : List MountInfo) → p.shared_id ≢ 0
        → l.peer_children ≡ some cs
        → Some (λ ct. mounts_equal l.mount ct false) cs
    unfolding lacks_peer
    lacks_peer-false e cs n c = elim (Bool-cases (any (λ ct. mounts_equal l.mount ct false) cs)) [
      | inl h ↦ any-true (λ ct. mounts_equal l.mount ct false) cs h
      | inr h ↦
          let z : (p.shared_id == 0) ≡ false = ground (arith, n) in
          let f : true ≡ false = (rw (has, z, c, h) at e) in absurd (cc)
    ]

    is_overmounted-false :
        is_overmounted l ≡ false
        → All
            (λ t. l.mount.mnt_id ≢ t.mnt_id → ¬ IsAbove t.mountpoint l.mount.mountpoint)
            l.siblings
    unfolding is_overmounted
    is_overmounted-false e =
        All-imp (hits-false l.mount) l.siblings (any-false (hits l.mount) l.siblings (rw has at e))

    lacks_root-false :
        lacks_root l ≡ false → (fsroot_mounted l.mount ≡ true) ⊎ Some fsroot_mounted l.binds
    unfolding lacks_root
    lacks_root-false e = elim (Bool-cases (fsroot_mounted l.mount)) [
      | inl h ↦ inl h
      | inr h ↦ elim (Bool-cases (any fsroot_mounted l.binds)) [
        | inl g ↦ inr (any-true fsroot_mounted l.binds g)
        | inr g ↦ let f : true ≡ false = (rw (has, h, g) at e) in absurd (cc)
      ]
    ]

    skipped : skips l ≡ true → IsAlone p
    unfolding skips
    skipped e = elim (Bool-cases (p.shared_id == 0)) [
      | inl z ↦ let f : false ≡ true = (rw (has, z) at e) in absurd (cc)
      | inr z ↦ elim (Option-cases l.peer_children) [
        | inl n ↦ (λ e. (let y = (==_iff p.shared_id 0).1 e in cc), n)
        | inr (cs, n) ↦ let f : false ≡ true = (rw (has, z, n) at e) in absurd (cc)
      ]
    ]

    checked-peer : IsChecked p → lacks_peer l ≡ false
    unfolding lacks_peer
    checked-peer c = elim (Bool-cases (p.shared_id == 0)) [
      | inl z ↦ rw (has, z) refl
      | inr z ↦ elim (Option-cases l.peer_children) [
        | inl n ↦ rw (has, z, n) refl
        | inr (cs, n) ↦
            let d : p.shared_id ≢ 0 = λ e. (let y = (==_iff p.shared_id 0).1 e in cc) in
            let (x, rest, i, q) = c.peer cs d n in
            rw (has, z, n, Inserted-any (λ ct. mounts_equal l.mount ct false) x i q) refl
      ]
    ]

    checked-free : IsChecked p → is_overmounted l ≡ false
    unfolding is_overmounted
    checked-free c =
        rw has (All-any (hits l.mount) l.siblings (All-imp (spared-hits l.mount) l.siblings c.free))

    rooted-lacks_root :
        ((fsroot_mounted l.mount ≡ true) ⊎ Some fsroot_mounted l.binds) → lacks_root l ≡ false
    unfolding lacks_root
    rooted-lacks_root (inl h) = rw (has, h) refl
    rooted-lacks_root (inr (x, rest, i, q)) = elim (Bool-cases (fsroot_mounted l.mount)) [
      | inl h ↦ rw (has, h) refl
      | inr h ↦ rw (has, h, Inserted-any fsroot_mounted x i q) refl
    ]

  data Asked (r : Res Bool) : Type 0 where
    taken : (need : Bool) → r ≡ ok need → IsTaken → Asked r
    left : r ≡ err → ¬ IsTaken → Asked r

  ask_plugin-Asked : Asked (ask_plugin plugin call l.mount)
  unfolding ask_plugin
  ask_plugin-Asked = elim (Bool-cases call) [
    | inl c ↦ elim (Bool-cases (is_neg (plugin l.mount))) [
      | inl n ↦
          left (rw (ask_plugin, c, n) refl) (λ t. elim t [ asked _ a ↦ (cc) | marked f _ ↦ (cc) ])
      | inr n ↦
          taken (need_after (plugin l.mount) l.mount.need_plugin) (rw (ask_plugin, c, n) refl)
            (asked c n)
    ]
    | inr c ↦ elim (Bool-cases l.mount.need_plugin) [
      | inl n ↦ taken true (rw (ask_plugin, c, n) refl) (marked c n)
      | inr n ↦
          left (rw (ask_plugin, c, n) refl) (λ t. elim t [ asked f _ ↦ (cc) | marked _ a ↦ (cc) ])
    ]
  ]

  IsChecked-of : (p : MountInfo) → l.parent ≡ some p → IsValid → IsAlone p ⊎ IsChecked p
  IsChecked-of p has (no_parent n) = let f : some p ≡ none = sym has ∙ n in absurd (cc)
  IsChecked-of p has (alone q n a) =
      let same : q ≡ p = (let e : some q ≡ some p = sym n ∙ has in cc) in inl (subst IsAlone same a)
  IsChecked-of p has (checked q n c) =
      let same : q ≡ p = (let e : some q ≡ some p = sym n ∙ has in cc) in
      inr (subst IsChecked same c)

  data Judgement (r : Res Bool) : Type 0 where
    passes : (need : Bool) → r ≡ ok need → IsValid → Judgement r
    fails : r ≡ err → ¬ IsValid → Judgement r

  module _ (p : MountInfo) (has : l.parent ≡ some p) (skip : skips l ≡ false) where
    not_alone : ¬ IsAlone p
    unfolding skips
    not_alone (n, c) =
        let z : (p.shared_id == 0) ≡ false = ground (arith, n) in
        let f : true ≡ false = (rw (has, z, c) at skip) in cc

    need_checked : ¬ IsChecked p → ¬ IsValid
    need_checked n v = elim (IsChecked-of p has v) [ inl a ↦ not_alone a | inr c ↦ n c ]

    -- After the peers and the root of the file system.
    judge_rest :
        (need : Bool)
        → lacks_peer l ≡ false
        → (if lacks_root l then ask_plugin plugin call l.mount else ok l.mount.need_plugin)
          ≡ ok need
        → ((fsroot_mounted l.mount ≡ true) ⊎ Some fsroot_mounted l.binds) ⊎ IsTaken
        → Judgement (validate_mount plugin call l)
    unfolding validate_mount
    judge_rest need e r src = elim (Bool-cases (is_overmounted l)) [
      | inl o ↦
          fails (rw (validate_mount, skip, e, r, o) refl)
            (need_checked (λ c. let f = checked-free p has c in cc))
      | inr o ↦ passes need (rw (validate_mount, skip, e, r, o) refl) (
          checked p has (record {
            peer = lacks_peer-false p has e;
            source = src;
            free = is_overmounted-false p has o;
          }))
    ]

    judge_checked : Judgement (validate_mount plugin call l)
    unfolding validate_mount
    judge_checked = elim (Bool-cases (lacks_peer l)) [
      | inl e ↦
          fails (rw (validate_mount, skip, e) refl)
            (need_checked (λ c. let f = checked-peer p has c in cc))
      | inr e ↦ elim (Bool-cases (lacks_root l)) [
        | inr r ↦ judge_rest l.mount.need_plugin e (rw r refl) (inl (lacks_root-false p has r))
        | inl r ↦ elim ask_plugin-Asked [
          | taken need a t ↦ judge_rest need e (rw (r, a) refl) (inr t)
          | left a n ↦ fails (rw (validate_mount, skip, e, r, a) refl) (
              need_checked (λ c. elim c.source [
                | inl h ↦ let f = rooted-lacks_root p has h in (cc)
                | inr t ↦ n t
              ]))
        ]
      ]
    ]

  validate_mount-Judgement : Judgement (validate_mount plugin call l)
  unfolding validate_mount skips lacks_peer lacks_root is_overmounted
  validate_mount-Judgement = elim (Option-cases l.parent) [
    | inl n ↦ passes l.mount.need_plugin (rw (validate_mount, n) refl) (no_parent n)
    | inr (p, has) ↦ elim (Bool-cases (skips l)) [
      | inr s ↦ judge_checked p has s
      | inl s ↦
          passes l.mount.need_plugin (rw (validate_mount, s) refl) (alone p has (skipped p has s))
    ]
  ]

-- What validate_mounts comes back with: either all mounts are valid, or one is not.
pub data Verdict (plugin : MountInfo → ℤ) (call : Bool) (ls : List Linked)
    : Res (List Bool) → Type 0 where
  valid : (needs : List Bool) → All (IsValid plugin call) ls → Verdict plugin call ls (ok needs)
  invalid : ¬ All (IsValid plugin call) ls → Verdict plugin call ls err

-- validate_mounts succeeds if every mount is valid, and returns -1 if one is not. Valid are: a mount without a parent; a mount whose
-- parent is shared in a group of one; and a mount that has an equal below its parent's peer
-- when the parent is shared, whose file system's root is mounted or which a plugin takes, and which
-- no sibling's mount point, up to the end or a slash, lies on or above.
pub validate_mounts-Verdict :
    (plugin : MountInfo → ℤ) (call : Bool) (ls : List Linked)
    → Verdict plugin call ls (validate_mounts plugin call ls)
unfolding validate_mounts
validate_mounts-Verdict plugin call [] = valid [] tt
validate_mounts-Verdict plugin call (l ∷ ls) = elim (validate_mount-Judgement plugin call l) [
  | fails e n ↦ rw e (invalid (λ a. n a.0))
  | passes need e v ↦
      rw e (rest need v (validate_mounts plugin call ls) (validate_mounts-Verdict plugin call ls))
]
  where
    rest :
        (need : Bool)
        → IsValid plugin call l
        → (r : Res (List Bool)) → Verdict plugin call ls r
        → Verdict plugin call (l ∷ ls) (r >>= λ needs. ok (need ∷ needs))
    rest need v (ok needs) (valid _ a) = valid (need ∷ needs) (v, a)
    rest need v bug x = elim x [ ]
    rest need v err (invalid n) = invalid (λ a. n a.1)
