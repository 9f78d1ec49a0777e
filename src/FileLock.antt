-- ===== src/FileLock.antt =====
-- file-lock.c: dump and restore of file locks.
pub mod Kernel
pub mod Restore
pub mod Dump
use crtools.Base.Strings.{Text, str_eq, strn_eq, atoll}
use crtools.Base.{
  ℕ, ◌+◌, ◌^◌, Bool, true, false, Option, none, some, List, [], ◌∷◌, ◌++◌, Res, ok, err, ◌>>=◌,
  ◌>>◌, fail_on, or_err, not, ◌==◌, if◌then◌else◌, add64, sub64, bit,
}

-- `struct file_lock`: one line of /proc/locks. The owner and `i_no` as numbers.
pub record FileLock : Type 0 where
  pub fl_flag : Text
  pub fl_type : Text
  pub fl_option : Text
  pub fl_owner : ℕ
  pub i_no : ℕ
  pub start : ℕ
  pub end : Text

-- `message file_lock_entry`
pub record FileLockEntry : Type 0 where
  pub flag : ℕ
  pub type : ℕ
  pub pid : ℕ
  pub fd : ℕ
  pub start : ℕ
  pub len : ℕ

abbrev pub fl_posix : ℕ
fl_posix = 1

abbrev pub fl_flock : ℕ
fl_flock = 2

abbrev pub f_rdlck : ℕ
f_rdlck = 0

abbrev pub f_wrlck : ℕ
f_wrlck = 1

abbrev pub f_unlck : ℕ
f_unlck = 2

abbrev pub lock_sh : ℕ
lock_sh = 1

abbrev pub lock_ex : ℕ
lock_ex = 2

abbrev pub lock_un : ℕ
lock_un = 8

abbrev pub lock_mand : ℕ
lock_mand = 32

abbrev pub lock_read : ℕ
lock_read = 64

abbrev pub lock_write : ℕ
lock_write = 128

abbrev pub lock_rw : ℕ
lock_rw = 192

-- The words of /proc/locks.
abbrev pub posix_text : Text
posix_text = 80 ∷ 79 ∷ 83 ∷ 73 ∷ 88 ∷ []

abbrev pub flock_text : Text
flock_text = 70 ∷ 76 ∷ 79 ∷ 67 ∷ 75 ∷ []

abbrev pub msnfs_text : Text
msnfs_text = 77 ∷ 83 ∷ 78 ∷ 70 ∷ 83 ∷ []

abbrev pub read_text : Text
read_text = 82 ∷ 69 ∷ 65 ∷ 68 ∷ []

abbrev pub rw_text : Text
rw_text = 82 ∷ 87 ∷ []

abbrev pub write_text : Text
write_text = 87 ∷ 82 ∷ 73 ∷ 84 ∷ 69 ∷ []

abbrev pub unlck_text : Text
unlck_text = 85 ∷ 78 ∷ 76 ∷ 67 ∷ 75 ∷ []

abbrev pub eof_text : Text
eof_text = 69 ∷ 79 ∷ 70 ∷ []

abbrev pub flag_bits : Text → Res ℕ
flag_bits fl_flag =
    if str_eq fl_flag posix_text
    then ok fl_posix
    else (if str_eq fl_flag flock_text then ok fl_flock else err)

abbrev pub mand_bits : Text → Res ℕ
mand_bits fl_option =
    if str_eq fl_option read_text
    then ok lock_read
    else (if str_eq fl_option rw_text
        then ok lock_rw
        else (if str_eq fl_option write_text then ok lock_write else err))

abbrev pub option_bits : Text → Res ℕ
option_bits fl_option =
    if str_eq fl_option unlck_text
    then ok f_unlck
    else (if str_eq fl_option write_text
        then ok f_wrlck
        else (if str_eq fl_option read_text then ok f_rdlck else err))

-- `flag` and `type`, which are 0 before: `|=` adds a bit that is not set.
unfoldable pub fill_flock_entry : Text → Text → Text → Res (ℕ × ℕ)
fill_flock_entry fl_flag fl_type fl_option = flag_bits fl_flag >>= λ flag.
    (if str_eq fl_type msnfs_text
      then (mand_bits fl_option >>= λ b. ok (lock_mand + b))
      else option_bits fl_option)
    >>= λ type. ok (flag, type)

-- `stat` of /proc/<pid>/fd/<fd>: the inode's number, none when it fails. None for -1.
abbrev pub get_fd_by_ino : (ℕ → Option ℕ) → ℕ → List ℕ → Option ℕ
get_fd_by_ino stat i_no [] = none
get_fd_by_ino stat i_no (fd ∷ fds) = elim (stat fd) [
  | none ↦ get_fd_by_ino stat i_no fds
  | some st_ino ↦ elim (st_ino == i_no) [ true ↦ some fd | false ↦ get_fd_by_ino stat i_no fds ]
]

abbrev pub lock_len : FileLock → ℕ
lock_len fl = if strn_eq 3 fl.end eof_text then 0 else sub64 (add64 (atoll fl.end) 1) fl.start

-- One round of dump_task_file_locks; `write` tells whether an entry can be written.
unfoldable pub dump_one :
    (ℕ → Option ℕ) → (FileLockEntry → Bool) → List ℕ → FileLock → Res FileLockEntry
unfolding fill_flock_entry
dump_one stat write fds fl = fill_flock_entry fl.fl_flag fl.fl_type fl.fl_option >>= λ (flag, type).
    or_err (get_fd_by_ino stat fl.i_no fds) >>= λ fd.
    let fle : FileLockEntry = record {
      flag = flag;
      type = type;
      pid = fl.fl_owner;
      fd = fd;
      start = fl.start;
      len = lock_len fl;
    } in
    fail_on (not (write fle)) >> ok fle

-- The entries that are written for the task `pid`, in order.
abbrev pub dump_task_file_locks :
    (ℕ → Option ℕ) → (FileLockEntry → Bool) → List ℕ → ℕ → List FileLock → Res (List FileLockEntry)
dump_task_file_locks stat write fds pid [] = ok []
dump_task_file_locks stat write fds pid (fl ∷ fls) = elim (fl.fl_owner == pid) [
  | false ↦ dump_task_file_locks stat write fds pid fls
  | true ↦ dump_one stat write fds fl >>= λ fle.
      dump_task_file_locks stat write fds pid fls >>= λ fles. ok (fle ∷ fles)
]

-- The system calls of the restore.
pub data Call : Type 0 where
  flock : ℕ → ℕ → Call
  setlkw : ℕ → ℕ → ℕ → ℕ → ℕ → Call

-- `flock(fd, cmd)`, with the test of LOCK_MAND first.
abbrev pub flock_cmd : ℕ → Res ℕ
flock_cmd type =
    if bit type 5
    then ok type
    else (if type == f_rdlck
        then ok lock_sh
        else (if type == f_wrlck
            then ok lock_ex
            else (if type == f_unlck then ok lock_un else err)))

-- The call that restore_file_lock makes: `flock fd cmd`, or `setlkw fd type start len pid`.
unfoldable pub lock_call : FileLockEntry → Res Call
lock_call fle =
    if bit fle.flag 1
    then (flock_cmd fle.type >>= λ cmd. ok (flock fle.fd cmd))
    else (if bit fle.flag 0 then ok (setlkw fle.fd fle.type fle.start fle.len fle.pid) else err)

-- What an image still gives: entries, and at its end an end of file or a failure to read on.
pub record Image : Type 0 where
  pub entries : List FileLockEntry
  pub broken : Bool

-- The calls made, and whether the result is 0; `takes` tells whether the kernel takes a call.
pub record Restored : Type 0 where
  pub calls : List Call
  pub success : Bool

unfoldable pub restore_file_lock : (Call → Bool) → FileLockEntry → Restored
unfolding lock_call
restore_file_lock takes fle = elim (lock_call fle) [
  | ok call ↦ record { calls = call ∷ []; success = takes call }
  | err ↦ record { calls = []; success = false }
  | Res.bug ↦ record { calls = []; success = false }
]

abbrev pub after : Restored → Restored → Restored
after r rest =
    if r.success then record { calls = r.calls ++ rest.calls; success = rest.success } else r

-- A failure to read ends the loop as the end of the file does.
unfoldable pub restore_loop : (Call → Bool) → List FileLockEntry → Restored
unfolding restore_file_lock
restore_loop takes [] = record { calls = []; success = true }
restore_loop takes (fle ∷ fles) = after (restore_file_lock takes fle) (restore_loop takes fles)

unfoldable pub restore_file_locks : (Call → Bool) → Image → Restored
unfolding restore_loop
restore_file_locks takes image = restore_loop takes image.entries

-- What `open_image` gives: no such file, another error, or an image.
pub data Opened : Type 0 where
  no_file : Opened
  open_failed : Opened
  opened : Image → Opened

-- `opts.handle_file_locks` first, then the opening of the image in restore_file_locks.
unfoldable pub prepare_file_locks : Bool → (Call → Bool) → Opened → Restored
unfolding restore_file_locks
prepare_file_locks handle takes o =
    if handle
    then elim o [
      | no_file ↦ record { calls = []; success = true }
      | open_failed ↦ record { calls = []; success = false }
      | opened image ↦ restore_file_locks takes image
    ]
    else record { calls = []; success = true }
