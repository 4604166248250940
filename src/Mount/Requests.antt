-- ===== src/Mount/Requests.antt =====
-- FUSE's requests to the program of fuse/main.c, and the states that they lead to.
use redis_virtual_file_syste.Common.{
  ℕ, ◌≡◌, Bytes, ℤ, Bool, true, false, Outcome, ok, fault, thrown, unfinished,
}
use redis_virtual_file_syste.Posix.{Posix, Answer}
use redis_virtual_file_syste.ExampleFs.{FileInfo}
use redis_virtual_file_syste.Mount.{examplefs_oper}
use redis_virtual_file_syste.Mount.State.{Program}

-- The state that a callback leaves, without its status and output.
abbrev pub state_after : {P A : Type 0} → Outcome (Answer P A) → Outcome P
state_after (ok a) = ok a.world
state_after fault = fault
state_after thrown = thrown
state_after unfinished = unfinished

module _ (p : Posix) (B : Type 0) where
  open p use {World, StatBuf, StatVfs, Times}

  -- A request of FUSE, with what it passes to the callback.
  pub data Request : Type 0 where
    getattr : Bytes → StatBuf → Request
    readlink : Bytes → Bytes → ℕ → Request
    mknod : Bytes → ℕ → ℕ → Request
    mkdir : Bytes → ℕ → Request
    unlink : Bytes → Request
    rmdir : Bytes → Request
    symlink : Bytes → Bytes → Request
    rename : Bytes → Bytes → Request
    link : Bytes → Bytes → Request
    chmod : Bytes → ℕ → Request
    chown : Bytes → ℕ → ℕ → Request
    truncate : Bytes → ℤ → Request
    utime : Bytes → Times → Request
    open_file : Bytes → FileInfo → Request
    read : Bytes → Bytes → ℕ → ℤ → FileInfo → Request
    write : Bytes → Bytes → ℕ → ℤ → FileInfo → Request
    statfs : Bytes → StatVfs → Request
    flush : Bytes → FileInfo → Request
    release : Bytes → FileInfo → Request
    fsync : Bytes → Bool → FileInfo → Request
    setxattr : Bytes → Bytes → Bytes → ℕ → ℤ → Request
    getxattr : Bytes → Bytes → Bytes → ℕ → Request
    listxattr : Bytes → Bytes → ℕ → Request
    removexattr : Bytes → Bytes → Request
    opendir : Bytes → FileInfo → Request
    readdir : (B → Bytes → ℕ × B) → B → FileInfo → Request
    releasedir : FileInfo → Request
    fsyncdir : Bytes → Bool → FileInfo → Request
    init : Request

  -- Whether the callback of a request builds an absolute path.
  abbrev pub takes_path : Request → Bool
  takes_path (getattr path buf) = true
  takes_path (readlink path buf size) = true
  takes_path (mknod path mode dev) = true
  takes_path (mkdir path mode) = true
  takes_path (unlink path) = true
  takes_path (rmdir path) = true
  takes_path (symlink path text) = true
  takes_path (rename path newpath) = true
  takes_path (link path newpath) = true
  takes_path (chmod path mode) = true
  takes_path (chown path uid gid) = true
  takes_path (truncate path size) = true
  takes_path (utime path ubuf) = true
  takes_path (open_file path info) = true
  takes_path (read path buf size offset info) = false
  takes_path (write path buf size offset info) = false
  takes_path (statfs path buf) = true
  takes_path (flush path info) = false
  takes_path (release path info) = false
  takes_path (fsync path datasync info) = false
  takes_path (setxattr path name value size flags) = true
  takes_path (getxattr path name value size) = true
  takes_path (listxattr path list size) = true
  takes_path (removexattr path name) = true
  takes_path (opendir path info) = true
  takes_path (readdir filler buf info) = false
  takes_path (releasedir info) = false
  takes_path (fsyncdir path datasync info) = false
  takes_path init = false

  -- A request through the table that `main` sets up.
  unfoldable pub handled : ℕ → Request → Program World → Outcome (Program World)
  unfolding examplefs_oper
  handled fuel (getattr path buf) s = state_after ((examplefs_oper p B fuel).getattr path buf s)
  handled fuel (readlink path buf size) s =
      state_after ((examplefs_oper p B fuel).readlink path buf size s)
  handled fuel (mknod path mode dev) s =
      state_after ((examplefs_oper p B fuel).mknod path mode dev s)
  handled fuel (mkdir path mode) s = state_after ((examplefs_oper p B fuel).mkdir path mode s)
  handled fuel (unlink path) s = state_after ((examplefs_oper p B fuel).unlink path s)
  handled fuel (rmdir path) s = state_after ((examplefs_oper p B fuel).rmdir path s)
  handled fuel (symlink path text) s = state_after ((examplefs_oper p B fuel).symlink path text s)
  handled fuel (rename path newpath) s =
      state_after ((examplefs_oper p B fuel).rename path newpath s)
  handled fuel (link path newpath) s = state_after ((examplefs_oper p B fuel).link path newpath s)
  handled fuel (chmod path mode) s = state_after ((examplefs_oper p B fuel).chmod path mode s)
  handled fuel (chown path uid gid) s = state_after ((examplefs_oper p B fuel).chown path uid gid s)
  handled fuel (truncate path size) s = state_after ((examplefs_oper p B fuel).truncate path size s)
  handled fuel (utime path ubuf) s = state_after ((examplefs_oper p B fuel).utime path ubuf s)
  handled fuel (open_file path info) s =
      state_after ((examplefs_oper p B fuel).open_file path info s)
  handled fuel (read path buf size offset info) s =
      state_after ((examplefs_oper p B fuel).read path buf size offset info s)
  handled fuel (write path buf size offset info) s =
      state_after ((examplefs_oper p B fuel).write path buf size offset info s)
  handled fuel (statfs path buf) s = state_after ((examplefs_oper p B fuel).statfs path buf s)
  handled fuel (flush path info) s = state_after ((examplefs_oper p B fuel).flush path info s)
  handled fuel (release path info) s = state_after ((examplefs_oper p B fuel).release path info s)
  handled fuel (fsync path datasync info) s =
      state_after ((examplefs_oper p B fuel).fsync path datasync info s)
  handled fuel (setxattr path name value size flags) s =
      state_after ((examplefs_oper p B fuel).setxattr path name value size flags s)
  handled fuel (getxattr path name value size) s =
      state_after ((examplefs_oper p B fuel).getxattr path name value size s)
  handled fuel (listxattr path list size) s =
      state_after ((examplefs_oper p B fuel).listxattr path list size s)
  handled fuel (removexattr path name) s =
      state_after ((examplefs_oper p B fuel).removexattr path name s)
  handled fuel (opendir path info) s = state_after ((examplefs_oper p B fuel).opendir path info s)
  handled fuel (readdir filler buf info) s =
      state_after ((examplefs_oper p B fuel).readdir filler buf info s)
  handled fuel (releasedir info) s = state_after ((examplefs_oper p B fuel).releasedir info s)
  handled fuel (fsyncdir path datasync info) s =
      state_after ((examplefs_oper p B fuel).fsyncdir path datasync info s)
  handled fuel init s = state_after ((examplefs_oper p B fuel).init s)

  -- The states that requests lead to.
  pub data Reach (fuel : ℕ) (start : Program World) : Program World → Type 0 where
    here : Reach fuel start start
    next :
        {s s' : Program World} (q : Request)
        → Reach fuel start s
        → handled fuel q s ≡ ok s'
        → Reach fuel start s'
