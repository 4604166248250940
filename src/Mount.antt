-- ===== src/Mount.antt =====
-- fuse/main.c: the table of callbacks, and the call of libfuse's `fuse_main`, which is a parameter.
pub mod State
pub mod Wrap
pub mod Requests
pub mod Unrooted
use redis_virtual_file_syste.Common.{ℕ, List, Bytes, ℤ, Bool, Option, none, some, Outcome}
use redis_virtual_file_syste.Posix.{Posix, Answer}
use redis_virtual_file_syste.ExampleFs.{FileInfo}
use redis_virtual_file_syste.Mount.State.{Program}
use redis_virtual_file_syste.Mount.Wrap.{
  wrap_getattr, wrap_readlink, wrap_mknod, wrap_mkdir, wrap_unlink, wrap_rmdir, wrap_symlink,
  wrap_rename, wrap_link, wrap_chmod, wrap_chown, wrap_truncate, wrap_utime, wrap_open, wrap_read,
  wrap_write, wrap_statfs, wrap_flush, wrap_release, wrap_fsync, wrap_setxattr, wrap_getxattr,
  wrap_listxattr, wrap_removexattr, wrap_opendir, wrap_readdir, wrap_releasedir, wrap_fsyncdir,
  wrap_init,
}

module _ (p : Posix) (B : Type 0) where
  open p use {World, StatBuf, StatVfs, Times}

  -- What a callback does to the program: its status, its output and the next state.
  abbrev pub Effect : Type 0 → Type 0
  Effect A = Program World → Outcome (Answer (Program World) A)

  -- `struct fuse_operations`, the entries that `main` sets; `B` is FUSE's buffer of a listing.
  pub record FuseOperations : Type 0 where
    pub getattr : Bytes → StatBuf → Effect StatBuf
    pub readlink : Bytes → Bytes → ℕ → Effect Bytes
    pub getdir : Option (Bytes → Effect (Unit {0}))
    pub mknod : Bytes → ℕ → ℕ → Effect (Unit {0})
    pub mkdir : Bytes → ℕ → Effect (Unit {0})
    pub unlink : Bytes → Effect (Unit {0})
    pub rmdir : Bytes → Effect (Unit {0})
    pub symlink : Bytes → Bytes → Effect (Unit {0})
    pub rename : Bytes → Bytes → Effect (Unit {0})
    pub link : Bytes → Bytes → Effect (Unit {0})
    pub chmod : Bytes → ℕ → Effect (Unit {0})
    pub chown : Bytes → ℕ → ℕ → Effect (Unit {0})
    pub truncate : Bytes → ℤ → Effect (Unit {0})
    pub utime : Bytes → Times → Effect (Unit {0})
    pub open_file : Bytes → FileInfo → Effect FileInfo
    pub read : Bytes → Bytes → ℕ → ℤ → FileInfo → Effect Bytes
    pub write : Bytes → Bytes → ℕ → ℤ → FileInfo → Effect (Unit {0})
    pub statfs : Bytes → StatVfs → Effect StatVfs
    pub flush : Bytes → FileInfo → Effect (Unit {0})
    pub release : Bytes → FileInfo → Effect (Unit {0})
    pub fsync : Bytes → Bool → FileInfo → Effect (Unit {0})
    pub setxattr : Bytes → Bytes → Bytes → ℕ → ℤ → Effect (Unit {0})
    pub getxattr : Bytes → Bytes → Bytes → ℕ → Effect Bytes
    pub listxattr : Bytes → Bytes → ℕ → Effect Bytes
    pub removexattr : Bytes → Bytes → Effect (Unit {0})
    pub opendir : Bytes → FileInfo → Effect FileInfo
    pub readdir : (B → Bytes → ℕ × B) → B → FileInfo → Effect B
    pub releasedir : FileInfo → Effect (Unit {0})
    pub fsyncdir : Bytes → Bool → FileInfo → Effect (Unit {0})
    pub init : Effect (Unit {0})

  -- `examplefs_oper` as `main` fills it. `fuel` bounds the rounds of a listing.
  unfoldable pub examplefs_oper : ℕ → FuseOperations
  examplefs_oper fuel = record {
    getattr = wrap_getattr p;
    readlink = wrap_readlink p;
    getdir = none;
    mknod = wrap_mknod p;
    mkdir = wrap_mkdir p;
    unlink = wrap_unlink p;
    rmdir = wrap_rmdir p;
    symlink = wrap_symlink p;
    rename = wrap_rename p;
    link = wrap_link p;
    chmod = wrap_chmod p;
    chown = wrap_chown p;
    truncate = wrap_truncate p;
    utime = wrap_utime p;
    open_file = wrap_open p;
    read = wrap_read p;
    write = wrap_write p;
    statfs = wrap_statfs p;
    flush = wrap_flush p;
    release = wrap_release p;
    fsync = wrap_fsync p;
    setxattr = wrap_setxattr p;
    getxattr = wrap_getxattr p;
    listxattr = wrap_listxattr p;
    removexattr = wrap_removexattr p;
    opendir = wrap_opendir p;
    readdir = wrap_readdir p fuel;
    releasedir = wrap_releasedir p;
    fsyncdir = wrap_fsyncdir p;
    init = wrap_init p;
  }

  -- `main` returns what `fuse_main` returns for the arguments and the table.
  unfoldable pub main :
      (List Bytes → FuseOperations → Effect (Unit {0})) → ℕ → List Bytes → Effect (Unit {0})
  unfolding examplefs_oper
  main fuse_main fuel argv = fuse_main argv (examplefs_oper fuel)
