-- ===== src/FileLock/Restore.antt =====
-- restore_file_locks of file-lock.c, where the kernel refuses a lock or an entry is unknown.
use crtools.Base.{
  ◌≡◌, refl, sym, ◌∙◌, subst, ==_iff, ap, Bool, true, false, Bool-cases, ◌⊎◌, inl, inr, List, [],
  ◌∷◌, ◌++◌, ok, err, ℕ, bit, ◌==◌,
}
use crtools.FileLock.{
  FileLockEntry, flock_cmd, Call, flock, setlkw, lock_call, Image, Restored, restore_file_lock,
  restore_loop, restore_file_locks,
}

-- The operation of flock(2) for the type of a lock: a mandatory lock (32) keeps its bits; F_RDLCK is LOCK_SH, F_WRLCK
-- is LOCK_EX, and F_UNLCK is LOCK_UN.
pub data Operation : ℕ → ℕ → Type 0 where
  mandatory : (t : ℕ) → bit t 5 ≡ true → Operation t t
  shared : Operation 0 1
  exclusive : Operation 1 2
  unlocked : Operation 2 8

-- The call that an entry stands for: flock(2) on the whole file for FL_FLOCK (2), and otherwise F_SETLKW of a range for
-- FL_POSIX (1).
pub data StandsFor (e : FileLockEntry) : Call → Type 0 where
  whole_file : (op : ℕ) → bit e.flag 1 ≡ true → Operation e.type op → StandsFor e (flock e.fd op)
  range :
      bit e.flag 1 ≡ false
      → bit e.flag 0 ≡ true
      → StandsFor e (setlkw e.fd e.type e.start e.len e.pid)

-- An entry of neither kind, or of a type that flock(2) does not have.
pub data IsUnknown (e : FileLockEntry) : Type 0 where
  no_kind : bit e.flag 1 ≡ false → bit e.flag 0 ≡ false → IsUnknown e
  no_type : bit e.flag 1 ≡ true → ((op : ℕ) → Operation e.type op → ⊥) → IsUnknown e

-- `Taken takes es cs`: the entries stand for the calls, and the kernel takes all of them.
pub data Taken (takes : Call → Bool) : List FileLockEntry → List Call → Type 0 where
  none_left : Taken takes [] []
  one_more :
      (e : FileLockEntry) (c : Call) {es : List FileLockEntry} {cs : List Call}
      → StandsFor e c
      → takes c ≡ true
      → Taken takes es cs
      → Taken takes (e ∷ es) (c ∷ cs)

-- An entry that stops the restore, and the calls made for it.
pub data Refused (takes : Call → Bool) (e : FileLockEntry) : List Call → Type 0 where
  unknown : IsUnknown e → Refused takes e []
  denied : (c : Call) → StandsFor e c → takes c ≡ false → Refused takes e (c ∷ [])

pub data RestoreResult (takes : Call → Bool) : List FileLockEntry → Restored → Type 0 where
  restored :
      (es : List FileLockEntry) (cs : List Call)
      → Taken takes es cs
      → RestoreResult takes es (record { calls = cs; success = true })
  stopped :
      (xs : List FileLockEntry) (cs : List Call) (e : FileLockEntry) (last : List Call)
      (ys es : List FileLockEntry)
      → es ≡ xs ++ e ∷ ys
      → Taken takes xs cs
      → Refused takes e last
      → RestoreResult takes es (record { calls = cs ++ last; success = false })

no_operation :
    (t op : ℕ)
    → bit t 5 ≡ false
    → (t == 0) ≡ false
    → (t == 1) ≡ false
    → (t == 2) ≡ false
    → Operation t op
    → ⊥
no_operation t _ a b c d (mandatory _ m) = let f : true ≡ false = sym m ∙ a in absurd (cc)
no_operation _ _ a b c d shared = absurd (cc)
no_operation _ _ a b c d exclusive = absurd (cc)
no_operation _ _ a b c d unlocked = absurd (cc)

flock_cmd-Operation :
    (t : ℕ)
    → ((flock_cmd t ≡ err) × ((op : ℕ) → Operation t op → ⊥))
      ⊎ ((op : ℕ) × (flock_cmd t ≡ ok op) × Operation t op)
flock_cmd-Operation t = elim (Bool-cases (bit t 5)) [
  | inl a ↦ inr (t, rw (flock_cmd, a) refl, mandatory t a)
  | inr a ↦ elim (Bool-cases (t == 0)) [
    | inl b ↦
        inr
          (1, rw (flock_cmd, a, b) refl, subst (λ u. Operation u 1) (sym ((==_iff t 0).0 b)) shared)
    | inr b ↦ elim (Bool-cases (t == 1)) [
      | inl c ↦ inr (
        2,
        rw (flock_cmd, a, b, c) refl,
        subst (λ u. Operation u 2) (sym ((==_iff t 1).0 c)) exclusive,
      )
      | inr c ↦ elim (Bool-cases (t == 2)) [
        | inl d ↦ inr (
          8,
          rw (flock_cmd, a, b, c, d) refl,
          subst (λ u. Operation u 8) (sym ((==_iff t 2).0 d)) unlocked,
        )
        | inr d ↦ inl (rw (flock_cmd, a, b, c, d) refl, λ op o. no_operation t op a b c d o)
      ]
    ]
  ]
]

lock_call-StandsFor :
    (e : FileLockEntry)
    → ((lock_call e ≡ err) × IsUnknown e) ⊎ ((c : Call) × (lock_call e ≡ ok c) × StandsFor e c)
unfolding lock_call
lock_call-StandsFor e = elim (Bool-cases (bit e.flag 1)) [
  | inl a ↦ elim (flock_cmd-Operation e.type) [
    | inl (n, u) ↦ inl (rw (lock_call, a, n) refl, no_type a u)
    | inr (op, n, o) ↦ inr (flock e.fd op, rw (lock_call, a, n) refl, whole_file op a o)
  ]
  | inr a ↦ elim (Bool-cases (bit e.flag 0)) [
    | inl b ↦ inr (setlkw e.fd e.type e.start e.len e.pid, rw (lock_call, a, b) refl, range a b)
    | inr b ↦ inl (rw (lock_call, a, b) refl, no_kind a b)
  ]
]

module _ (takes : Call → Bool) where
  more :
      (e : FileLockEntry) (c : Call) (es : List FileLockEntry) (r : Restored)
      → StandsFor e c
      → takes c ≡ true
      → RestoreResult takes es r
      → RestoreResult takes (e ∷ es) (record { calls = c ∷ r.calls; success = r.success })
  more e c es r k t (restored _ cs w) = restored (e ∷ es) (c ∷ cs) (one_more e c k t w)
  more e c es r k t (stopped xs cs b last ys _ q w f) =
      stopped (e ∷ xs) (c ∷ cs) b last ys (e ∷ es) (ap (◌∷◌ e) q) (one_more e c k t w) f

  restore_loop-RestoreResult :
      (es : List FileLockEntry) → RestoreResult takes es (restore_loop takes es)
  unfolding restore_loop restore_file_lock
  restore_loop-RestoreResult [] = restored [] [] none_left
  restore_loop-RestoreResult (e ∷ es) = elim (lock_call-StandsFor e) [
    | inl (n, u) ↦
        rw (restore_loop, restore_file_lock, n)
          (stopped [] [] e [] es (e ∷ es) refl none_left (unknown u))
    | inr (c, n, k) ↦ elim (Bool-cases (takes c)) [
      | inl t ↦
          rw (restore_loop, restore_file_lock, n, t)
            (more e c es (restore_loop takes es) k t (restore_loop-RestoreResult es))
      | inr t ↦
          rw (restore_loop, restore_file_lock, n, t)
            (stopped [] [] e (c ∷ []) es (e ∷ es) refl none_left (denied c k t))
    ]
  ]

  -- restore_file_locks makes, in order, the calls that the entries stand for: flock(2) with the operation for the
  -- type for an entry of kind FL_FLOCK, F_SETLKW with its range for one of kind FL_POSIX only. It succeeds if all are
  -- taken, also when the image cannot be read to its end, and stops with an error at the first entry that is of
  -- neither kind, or has a type that flock(2) has no operation for, or whose call the kernel refuses, with no call
  -- after that one.
  pub restore_file_locks-RestoreResult :
      (image : Image) → RestoreResult takes image.entries (restore_file_locks takes image)
  unfolding restore_file_locks
  restore_file_locks-RestoreResult image = restore_loop-RestoreResult image.entries
