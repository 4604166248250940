-- ===== src/Fuse/Class.antt =====
-- The class `RedisFs` of fuse/redisfs.hpp: its methods on the context that the object keeps, and
-- the bodies that fuse/redisfs.cc gives them.
use redis_virtual_file_syste.Common.{ℕ, Bytes, ℤ, Bool, Option, Outcome}
use redis_virtual_file_syste.Redis.{Redis}
use redis_virtual_file_syste.Posix.{Posix, Answer}
use redis_virtual_file_syste.ExampleFs.{FileInfo}
use redis_virtual_file_syste.PathParser.State.{ParserState}
use redis_virtual_file_syste.Wrapper.Items.{DirItemInfo}
use redis_virtual_file_syste.Fuse.{Attributes, getattr, readdir, redis_fs_instance}
use redis_virtual_file_syste.Fuse
use redis_virtual_file_syste.Fuse.Callbacks

-- `FsContext` of virtualFileSystem/virtualFileSystemWrapper.h: the connection, by the dataset behind
-- it, and the current directory.
pub record FsContext (Db : Type 0) : Type 0 where
  pub db : Db
  pub cwd : Bytes

module _ (r : Redis) (p : Posix) where
  open r use {Db}
  open p use {World, Times}

  pub record RedisFs : Type 1 where
    pub instance_context : Option Bytes → Db → Bytes × Db
    pub getattr : FsContext Db → DirItemInfo → ParserState → Bytes → Outcome (ℤ × Attributes)
    pub readlink : Bytes → Bytes → ℕ → FsContext Db → ℤ × FsContext Db
    pub mknod : Bytes → ℕ → ℕ → FsContext Db → ℤ × FsContext Db
    pub mkdir : Bytes → ℕ → FsContext Db → ℤ × FsContext Db
    pub unlink : Bytes → FsContext Db → ℤ × FsContext Db
    pub rmdir : Bytes → FsContext Db → ℤ × FsContext Db
    pub symlink : Bytes → Bytes → FsContext Db → ℤ × FsContext Db
    pub rename : Bytes → Bytes → FsContext Db → ℤ × FsContext Db
    pub link : Bytes → Bytes → FsContext Db → ℤ × FsContext Db
    pub chmod : Bytes → ℕ → FsContext Db → ℤ × FsContext Db
    pub chown : Bytes → ℕ → ℕ → FsContext Db → ℤ × FsContext Db
    pub truncate : Bytes → ℤ → FsContext Db → ℤ × FsContext Db
    pub utime : Bytes → Bytes → Times → World → Answer World (Unit {0})
    pub open_file : Bytes → FileInfo → FsContext Db → ℤ × FsContext Db
    pub read : Bytes → Bytes → ℕ → ℤ → FileInfo → FsContext Db → ℤ × FsContext Db
    pub write : Bytes → Bytes → ℕ → ℤ → FileInfo → FsContext Db → ℤ × FsContext Db
    pub statfs : Bytes → FsContext Db → ℤ × FsContext Db
    pub flush : Bytes → FileInfo → FsContext Db → ℤ × FsContext Db
    pub release : Bytes → FileInfo → FsContext Db → ℤ × FsContext Db
    pub fsync : Bytes → Bool → FileInfo → FsContext Db → ℤ × FsContext Db
    pub setxattr : Bytes → Bytes → Bytes → ℕ → ℤ → FsContext Db → ℤ × FsContext Db
    pub getxattr : Bytes → Bytes → Bytes → ℕ → FsContext Db → ℤ × FsContext Db
    pub listxattr : Bytes → Bytes → ℕ → FsContext Db → ℤ × FsContext Db
    pub removexattr : Bytes → Bytes → FsContext Db → ℤ × FsContext Db
    pub opendir : Bytes → FileInfo → FsContext Db → ℤ × FsContext Db
    pub readdir : {B : Type 0} → (B → Bytes → ℕ × B) → B → FsContext Db → Bytes → Outcome (ℤ × B)
    pub releasedir : Bytes → FileInfo → FsContext Db → ℤ × FsContext Db
    pub fsyncdir : Bytes → Bool → FileInfo → FsContext Db → ℤ × FsContext Db
    pub init : FsContext Db → ℤ × FsContext Db
    pub truncate_open : Bytes → ℤ → FileInfo → FsContext Db → ℤ × FsContext Db

  unfoldable pub redis_fs : RedisFs
  redis_fs = record {
    instance_context = redis_fs_instance r;
    getattr = λ context junk state path. Fuse.getattr r context.db context.cwd junk state path;
    readlink = Callbacks.readlink;
    mknod = Callbacks.mknod;
    mkdir = Callbacks.mkdir;
    unlink = Callbacks.unlink;
    rmdir = Callbacks.rmdir;
    symlink = Callbacks.symlink;
    rename = Callbacks.rename;
    link = Callbacks.link;
    chmod = Callbacks.chmod;
    chown = Callbacks.chown;
    truncate = Callbacks.truncate;
    utime = Callbacks.utime p;
    open_file = Callbacks.open_file;
    read = Callbacks.read;
    write = Callbacks.write;
    statfs = Callbacks.statfs;
    flush = Callbacks.flush;
    release = Callbacks.release;
    fsync = Callbacks.fsync;
    setxattr = Callbacks.setxattr;
    getxattr = Callbacks.getxattr;
    listxattr = Callbacks.listxattr;
    removexattr = Callbacks.removexattr;
    opendir = Callbacks.opendir;
    readdir = λ filler buf context path. Fuse.readdir r filler buf context.db context.cwd path;
    releasedir = Callbacks.releasedir;
    fsyncdir = Callbacks.fsyncdir;
    init = Callbacks.init;
    truncate_open = Callbacks.truncate_open;
  }
