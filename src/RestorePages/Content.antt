-- ===== src/RestorePages/Content.antt =====
-- What restore_priv_vma_content (cr-restore.c) leaves in memory.
use crtools.Base.Strings.{str_eq}
use crtools.Base.{
  ℕ, suc, ◌≡◌, refl, sym, ap, ap₂, ◌∙◌, subst, inl, inr, Bool, true, false, ◌&&◌, Bool-cases, List,
  [], ◌∷◌, ◌++◌, some, ◌==◌, ==_iff, if◌then◌else◌,
}
use crtools.PageRead.Image.{Image, lookup}
use crtools.RestorePages.{RstVma, Premapped, set_at, mark, put_page}

abbrev pub elem : ℕ → List ℕ → Bool
elem a [] = false
elem a (x ∷ xs) = if a == x then true else elem a xs

pub elem-append :
    (a : ℕ) (xs ys : List ℕ) → elem a (xs ++ ys) ≡ (if elem a xs then true else elem a ys)
elem-append a [] ys = refl
elem-append a (x ∷ xs) ys = elim (Bool-cases (a == x)) [
  | inl h ↦ rw h refl
  | inr h ↦ rw h (elem-append a xs ys)
]

-- From `m` to `m2`, exactly the pages `done` have got what the chain holds, and are not to be dropped.
pub record Holds (imgs : List Image) (done : List ℕ) (m m2 : Premapped) : Type 0 where
  pub held :
      (a : ℕ)
      → elem a done ≡ true
      → (some (m2.content a) ≡ lookup imgs a) × (m2.ppage_bits a ≡ false)
  pub kept :
      (a : ℕ)
      → elem a done ≡ false
      → (m2.content a ≡ m.content a) × (m2.ppage_bits a ≡ m.ppage_bits a)

pub Holds-none : (imgs : List Image) (m : Premapped) → Holds imgs [] m m
Holds-none imgs m = record { held = λ a e. absurd (cc); kept = λ a e. (refl, refl) }

pub Holds-append :
    (imgs : List Image) (xs ys : List ℕ) (m m2 m3 : Premapped)
    → Holds imgs xs m m2
    → Holds imgs ys m2 m3
    → Holds imgs (xs ++ ys) m m3
Holds-append imgs xs ys m m2 m3 f g = record {
  held = λ a e. elim (Bool-cases (elem a ys)) [
    | inl y ↦ g.held a y
    | inr y ↦ elim (Bool-cases (elem a xs)) [
      | inl x ↦ let k = g.kept a y in let h = f.held a x in (ap some k.0 ∙ h.0, k.1 ∙ h.1)
      | inr x ↦
          let n = elem-append a xs ys in let z : false ≡ true = (rw (n, x, y) at e) in absurd (cc)
    ]
  ];
  kept = λ a e. elim (Bool-cases (elem a xs)) [
    | inl x ↦ let n = elem-append a xs ys in let z : true ≡ false = (rw (n, x) at e) in absurd (cc)
    | inr x ↦
        let n = elem-append a xs ys in
        let y : elem a ys ≡ false = (rw (n, x) at e) in
        let k = g.kept a y in let l = f.kept a x in (k.0 ∙ l.0, k.1 ∙ l.1)
  ];
}

pub set_at-same {ℓ} :
    {A : Type ℓ} (f : ℕ → A) (va a : ℕ) (x : A) → (a == va) ≡ true → set_at f va x a ≡ x
set_at-same f va a x e = rw e refl

pub set_at-other {ℓ} :
    {A : Type ℓ} (f : ℕ → A) (va a : ℕ) (x : A) → (a == va) ≡ false → set_at f va x a ≡ f a
set_at-other f va a x e = rw e refl

str_eq-same : (xs ys : List ℕ) → str_eq xs ys ≡ true → xs ≡ ys
unfolding str_eq
str_eq-same [] [] e = refl
str_eq-same [] (y ∷ ys) e = absurd (cc)
str_eq-same (x ∷ xs) [] e = absurd (cc)
str_eq-same (x ∷ xs) (y ∷ ys) e = elim (Bool-cases (x == y)) [
  | inl h ↦ ap₂ ◌∷◌ ((==_iff x y).0 h) (str_eq-same xs ys (rw h at e))
  | inr h ↦ let f : false ≡ true = (rw h at e) in absurd (cc)
]

module _ (imgs : List Image) (v : RstVma) (va : ℕ) (buf : List ℕ) (m m2 : Premapped) where
  -- A page that is marked, whose content is then `buf`, and no other that differs.
  placed-Holds :
      lookup imgs va ≡ some buf
      → m2.ppage_bits ≡ set_at m.ppage_bits va false
      → m2.content va ≡ buf
      → ((a : ℕ) → (a == va) ≡ false → m2.content a ≡ m.content a)
      → Holds imgs (va ∷ []) m m2
  placed-Holds l p c o = record {
    held = λ a e. elim (Bool-cases (a == va)) [
      | inl h ↦
          let q = (==_iff a va).0 h in
          (
            subst (λ w. some (m2.content w) ≡ lookup imgs w) (sym q) (ap some c ∙ sym l),
            ap (λ f. f a) p ∙ set_at-same m.ppage_bits va a false h,
          )
      | inr h ↦ let f : false ≡ true = (rw h at e) in absurd (cc)
    ];
    kept = λ a e. elim (Bool-cases (a == va)) [
      | inl h ↦ let f : true ≡ false = (rw h at e) in absurd (cc)
      | inr h ↦ (o a h, ap (λ f. f a) p ∙ set_at-other m.ppage_bits va a false h)
    ];
  }

pub ==_refl : (a : ℕ) → (a == a) ≡ true
==_refl a = (==_iff a a).1 refl

-- One page that is put to its place, or is there already.
pub put_page-Holds :
    (imgs : List Image) (v : RstVma) (va : ℕ) (buf : List ℕ) (m : Premapped)
    → lookup imgs va ≡ some buf
    → Holds imgs (va ∷ []) m (put_page v va buf m)
unfolding put_page
put_page-Holds imgs v va buf m l = elim (Bool-cases (v.inherited && str_eq (m.content va) buf)) [
  | inl s ↦ rw s (
      placed-Holds imgs v va buf m (record (mark va m) { nr_shared = suc m.nr_shared }) l refl
        (equal s) (λ a h. refl))
  | inr s ↦ rw s (
      placed-Holds imgs v va buf m
        (record (mark va m) { content = set_at m.content va buf; nr_restored = suc m.nr_restored })
        l refl (set_at-same m.content va va buf (==_refl va))
        (λ a h. set_at-other m.content va a buf h))
]
  where
    equal : (v.inherited && str_eq (m.content va) buf) ≡ true → m.content va ≡ buf
    equal s = elim (Bool-cases v.inherited) [
      | inl i ↦ str_eq-same (m.content va) buf (rw i at s)
      | inr i ↦ let f : false ≡ true = (rw i at s) in absurd (cc)
    ]
