-- ===== src/FileLock/Dump.antt =====
-- A dump of file locks (file-lock.c), and its restore.
use crtools.Base.Strings.{Text, str_eq, strn_eq, atoll}
use crtools.Base.{
  ℕ, suc, ◌-◌, ◌^◌, ◌≤◌, ◌<◌, ◌≡◌, ◌≢◌, refl, sym, ap, ◌∙◌, inl, inr, Bool, true, false, Bool-cases,
  Option, none, some, Option-cases, List, [], ◌∷◌, map, ok, All, ◌==◌, ==_iff, sub64, add64,
  if◌then◌else◌, arith,
}
use crtools.Base.Order.{Inserted, here, there}
use crtools.FileLock.{
  FileLockEntry, fill_flock_entry, get_fd_by_ino, lock_len, dump_one, dump_task_file_locks,
  eof_text, Call, flock, setlkw, lock_call, restore_file_lock, restore_loop, restore_file_locks,
}
use crtools.FileLock.Kernel.{
  Held, IsEnd, to_eof, to_byte, Kind, posix, bsd, mandatory, posix_type, bsd_operation,
  share_operation, flag_of, type_of, option_of, reads, writes, unlocks, share_read, share_write,
  share_rw, line, recreated, extent,
}

-- The descriptor that get_fd_by_ino finds, or that there is none.
pub data FdResult (stat : ℕ → Option ℕ) (i_no : ℕ) (fds : List ℕ) : Option ℕ → Type 0 where
  found :
      (fd : ℕ) (rest : List ℕ)
      → Inserted fd rest fds
      → stat fd ≡ some i_no
      → FdResult stat i_no fds (some fd)
  missing : All (λ fd. stat fd ≢ some i_no) fds → FdResult stat i_no fds none

module _ (stat : ℕ → Option ℕ) (i_no : ℕ) where
  other_inode : (fd ino : ℕ) → stat fd ≡ some ino → (ino == i_no) ≡ false → stat fd ≢ some i_no
  other_inode fd ino n h e =
      let e2 : some ino ≡ some i_no = sym n ∙ e in
      let same : ino ≡ i_no = cc in let y = (==_iff ino i_no).1 same in cc

-- get_fd_by_ino returns one of the task's descriptors whose file has the inode number, on whatever
-- device, and -1 only if none of them has.
pub get_fd_by_ino-FdResult :
    (stat : ℕ → Option ℕ) (i_no : ℕ) (fds : List ℕ)
    → FdResult stat i_no fds (get_fd_by_ino stat i_no fds)
get_fd_by_ino-FdResult stat i_no [] = missing tt
get_fd_by_ino-FdResult stat i_no (fd ∷ fds) = elim (Option-cases (stat fd)) [
  | inl n ↦
      rw (get_fd_by_ino, n)
        (later (λ e. cc) (get_fd_by_ino stat i_no fds) (get_fd_by_ino-FdResult stat i_no fds))
  | inr (ino, n) ↦ elim (Bool-cases (ino == i_no)) [
    | inl h ↦
        let same = (==_iff ino i_no).0 h in
        rw (get_fd_by_ino, n, h) (found fd fds (here fds) (rw (n, same) refl))
    | inr h ↦
        rw (get_fd_by_ino, n, h)
          (later (other_inode stat i_no fd ino n h) (get_fd_by_ino stat i_no fds)
            (get_fd_by_ino-FdResult stat i_no fds))
  ]
]
  where
    later :
        stat fd ≢ some i_no
        → (r : Option ℕ) → FdResult stat i_no fds r
        → FdResult stat i_no (fd ∷ fds) r
    later n (some x) (found _ rest i s) = found x (fd ∷ rest) (there fd i) s
    later n none (missing a) = missing (n, a)

-- `flag` and `type` of an entry.
abbrev bits : Kind → ℕ × ℕ
bits (posix m mode) = (1, posix_type mode)
bits (bsd mode) = (2, posix_type mode)
bits (mandatory share) = (2, share_operation share)

fill_flock_entry-line :
    (k : Kind) → fill_flock_entry (flag_of k) (type_of k) (option_of k) ≡ ok (bits k)
unfolding fill_flock_entry str_eq
fill_flock_entry-line (posix true reads) = refl
fill_flock_entry-line (posix true writes) = refl
fill_flock_entry-line (posix true unlocks) = refl
fill_flock_entry-line (posix false reads) = refl
fill_flock_entry-line (posix false writes) = refl
fill_flock_entry-line (posix false unlocks) = refl
fill_flock_entry-line (bsd reads) = refl
fill_flock_entry-line (bsd writes) = refl
fill_flock_entry-line (bsd unlocks) = refl
fill_flock_entry-line (mandatory share_read) = refl
fill_flock_entry-line (mandatory share_write) = refl
fill_flock_entry-line (mandatory share_rw) = refl

extent-len :
    (start last : ℕ) (end : Text)
    → atoll end ≡ last
    → start ≤ last
    → last < 2 ^ 63 - 1
    → sub64 (add64 (atoll end) 1) start ≡ suc last - start
extent-len start last end a b c = omega (arith, a)

lock_len-line : (l : Held) → IsEnd l.start l.last l.end → lock_len (line l) ≡ extent l.start l.last
lock_len-line l e = go l.start l.last l.end e
  where
    go :
        (start : ℕ) (last : Option ℕ) (end : Text)
        → IsEnd start last end
        → (if strn_eq 3 end eof_text then 0 else sub64 (add64 (atoll end) 1) start)
          ≡ extent start last
    go start none end (to_eof _) = unfold strn_eq in refl
    go start (some last) end (to_byte _ _ _ n a b c) = rw n (extent-len start last end a b c)

-- The call of an entry that has the bits of a kind.
call_of : Kind → ℕ → ℕ → ℕ → ℕ → Call
call_of (posix m mode) pid fd start len = setlkw fd (posix_type mode) start len pid
call_of (bsd mode) pid fd start len = flock fd (bsd_operation mode)
call_of (mandatory share) pid fd start len = flock fd (share_operation share)

abbrev entry_of : Kind → ℕ → ℕ → ℕ → ℕ → FileLockEntry
entry_of k pid fd start len = record {
  flag = (bits k).0;
  type = (bits k).1;
  pid = pid;
  fd = fd;
  start = start;
  len = len;
}

lock_call-entry_of :
    (k : Kind) (pid fd start len : ℕ)
    → lock_call (entry_of k pid fd start len) ≡ ok (call_of k pid fd start len)
unfolding lock_call call_of
lock_call-entry_of (posix m mode) pid fd start len = refl
lock_call-entry_of (bsd reads) pid fd start len = refl
lock_call-entry_of (bsd writes) pid fd start len = refl
lock_call-entry_of (bsd unlocks) pid fd start len = refl
lock_call-entry_of (mandatory share_read) pid fd start len = refl
lock_call-entry_of (mandatory share_write) pid fd start len = refl
lock_call-entry_of (mandatory share_rw) pid fd start len = refl

call_of-recreated :
    (l : Held) (fd : ℕ) → call_of l.kind l.owner fd l.start (extent l.start l.last) ≡ recreated l fd
unfolding call_of
call_of-recreated l fd = go l.kind refl
  where
    go :
        (k : Kind)
        → l.kind ≡ k
        → call_of l.kind l.owner fd l.start (extent l.start l.last) ≡ recreated l fd
    go (posix m mode) e = rw (recreated, call_of, e) refl
    go (bsd mode) e = rw (recreated, call_of, e) refl
    go (mandatory share) e = rw (recreated, call_of, e) refl

module _ (stat : ℕ → Option ℕ) (write : FileLockEntry → Bool) (fds : List ℕ)
    (writes_all : (e : FileLockEntry) → write e ≡ true) where
  dump_one-line :
      (l : Held) (fd : ℕ)
      → IsEnd l.start l.last l.end
      → get_fd_by_ino stat l.i_no fds ≡ some fd
      → (e : FileLockEntry) × (dump_one stat write fds (line l) ≡ ok e)
        × (lock_call e ≡ ok (recreated l fd))
  unfolding dump_one
  dump_one-line l fd e h =
      let fle = entry_of l.kind l.owner fd l.start (lock_len (line l)) in
      (
        fle,
        rw (dump_one, fill_flock_entry-line l.kind, h, writes_all fle) refl,
        lock_call-entry_of l.kind l.owner fd l.start (lock_len (line l))
            ∙ ap ok (rw (lock_len-line l e) (call_of-recreated l fd)),
      )

  -- A lock of the task with a descriptor.
  pub record IsDumpable (l : Held) : Type 0 where
    pub end : IsEnd l.start l.last l.end
    pub fd : ℕ
    pub found : get_fd_by_ino stat l.i_no fds ≡ some fd

  -- The calls that take a task's locks again, each through a descriptor of the locked file.
  abbrev pub recreate_all : ℕ → List Held → List Call
  recreate_all pid [] = []
  recreate_all pid (l ∷ ls) = elim (l.owner == pid) [
    | false ↦ recreate_all pid ls
    | true ↦ elim (get_fd_by_ino stat l.i_no fds) [
      | none ↦ recreate_all pid ls
      | some fd ↦ recreated l fd ∷ recreate_all pid ls
    ]
  ]

  -- When every lock of the task is on a file that one of its descriptors is open on, all entries can be
  -- written and the kernel takes all calls, dump_task_file_locks succeeds on the lines that the kernel
  -- prints for any tasks' locks, and the restore of its image makes exactly the calls that take this task's
  -- locks again, in order: of the same kind, mode and range of bytes.
  pub dump_task_file_locks-restore :
      (takes : Call → Bool)
      → ((c : Call) → takes c ≡ true)
      → (pid : ℕ) (ls : List Held) → All (λ l. l.owner ≡ pid → IsDumpable l) ls
      → (es : List FileLockEntry) × (dump_task_file_locks stat write fds pid (map line ls) ≡ ok es)
        × (restore_file_locks takes (record { entries = es; broken = false })
            ≡ record { calls = recreate_all pid ls; success = true })
  unfolding restore_file_locks restore_loop restore_file_lock
  dump_task_file_locks-restore takes y pid [] a = ([], refl, refl)
  dump_task_file_locks-restore takes y pid (l ∷ ls) a =
      let (es, d, r) = dump_task_file_locks-restore takes y pid ls a.1 in
      elim (Bool-cases (l.owner == pid)) [
        | inr o ↦ (es, rw (dump_task_file_locks, o) d, rw (recreate_all, o) r)
        | inl o ↦
            let w = a.0 ((==_iff l.owner pid).0 o) in
            let (e, f, c) = dump_one-line l w.fd w.end w.found in
            (
              e ∷ es,
              rw (dump_task_file_locks, o, f, d) refl,
              rw
                  (
                    recreate_all,
                    o,
                    w.found,
                    restore_loop,
                    restore_file_lock,
                    c,
                    y (recreated l w.fd),
                    r,
                  )
                  refl,
            )
      ]
