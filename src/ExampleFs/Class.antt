-- ===== src/ExampleFs/Class.antt =====
-- The class `ExampleFS` of fuse/examplefs.hh: its methods, and the bodies that fuse/examplefs.cc gives
-- them.
use redis_virtual_file_syste.Common.{ℕ, Bytes, ℤ, Bool, Option, Outcome}
use redis_virtual_file_syste.Posix.{Posix, Answer}
use redis_virtual_file_syste.ExampleFs.{ExampleFs, FileInfo, abs_path, instance_of, set_root_dir}
use redis_virtual_file_syste.ExampleFs.Nodes
use redis_virtual_file_syste.ExampleFs.Files
use redis_virtual_file_syste.ExampleFs.Attributes
use redis_virtual_file_syste.ExampleFs.Directories

module _ (p : Posix) where
  open p use {World, StatBuf, StatVfs, Times}

  pub record ExampleFsMethods : Type 1 where
    pub abs_path : ExampleFs → Bytes → Outcome Bytes
    pub instance_of : Option ExampleFs → ExampleFs
    pub set_root_dir : Bytes → ExampleFs → ExampleFs
    pub getattr : ExampleFs → Bytes → StatBuf → World → Outcome (Answer World StatBuf)
    pub readlink : ExampleFs → Bytes → Bytes → ℕ → World → Outcome (Answer World Bytes)
    pub mknod : ExampleFs → Bytes → ℕ → ℕ → World → Outcome (Answer World (Unit {0}))
    pub mkdir : ExampleFs → Bytes → ℕ → World → Outcome (Answer World (Unit {0}))
    pub unlink : ExampleFs → Bytes → World → Outcome (Answer World (Unit {0}))
    pub rmdir : ExampleFs → Bytes → World → Outcome (Answer World (Unit {0}))
    pub symlink : ExampleFs → Bytes → Bytes → World → Outcome (Answer World (Unit {0}))
    pub rename : ExampleFs → Bytes → Bytes → World → Outcome (Answer World (Unit {0}))
    pub link : ExampleFs → Bytes → Bytes → World → Outcome (Answer World (Unit {0}))
    pub chmod : ExampleFs → Bytes → ℕ → World → Outcome (Answer World (Unit {0}))
    pub chown : ExampleFs → Bytes → ℕ → ℕ → World → Outcome (Answer World (Unit {0}))
    pub truncate : ExampleFs → Bytes → ℤ → World → Outcome (Answer World (Unit {0}))
    pub utime : ExampleFs → Bytes → Times → World → Outcome (Answer World (Unit {0}))
    pub open_file : ExampleFs → Bytes → FileInfo → World → Outcome (Answer World FileInfo)
    pub read : Bytes → Bytes → ℕ → ℤ → FileInfo → World → Answer World Bytes
    pub write : Bytes → Bytes → ℕ → ℤ → FileInfo → World → Answer World (Unit {0})
    pub statfs : ExampleFs → Bytes → StatVfs → World → Outcome (Answer World StatVfs)
    pub flush : Bytes → FileInfo → World → Answer World (Unit {0})
    pub release : Bytes → FileInfo → World → Answer World (Unit {0})
    pub fsync : Bytes → Bool → FileInfo → World → Answer World (Unit {0})
    pub truncate_open : ExampleFs → Bytes → ℤ → FileInfo → World → Outcome (Answer World (Unit {0}))
    pub setxattr :
        ExampleFs → Bytes → Bytes → Bytes → ℕ → ℤ → World → Outcome (Answer World (Unit {0}))
    pub getxattr : ExampleFs → Bytes → Bytes → Bytes → ℕ → World → Outcome (Answer World Bytes)
    pub listxattr : ExampleFs → Bytes → Bytes → ℕ → World → Outcome (Answer World Bytes)
    pub removexattr : ExampleFs → Bytes → Bytes → World → Outcome (Answer World (Unit {0}))
    pub opendir : ExampleFs → Bytes → FileInfo → World → Outcome (Answer World FileInfo)
    pub readdir :
        {B : Type 0} → ℕ → (B → Bytes → ℕ × B) → B → FileInfo → World → Outcome (Answer World B)
    pub releasedir : FileInfo → World → Answer World (Unit {0})
    pub fsyncdir : Bytes → Bool → FileInfo → World → Answer World (Unit {0})
    pub init : World → Answer World (Unit {0})

  unfoldable pub example_fs_methods : ExampleFsMethods
  example_fs_methods = record {
    abs_path = abs_path p;
    instance_of = instance_of;
    set_root_dir = set_root_dir;
    getattr = Nodes.getattr p;
    readlink = Nodes.readlink p;
    mknod = Nodes.mknod p;
    mkdir = Nodes.mkdir p;
    unlink = Nodes.unlink p;
    rmdir = Nodes.rmdir p;
    symlink = Nodes.symlink p;
    rename = Nodes.rename p;
    link = Nodes.link p;
    chmod = Nodes.chmod p;
    chown = Nodes.chown p;
    truncate = Nodes.truncate p;
    utime = Nodes.utime p;
    open_file = Files.open_file p;
    read = Files.read p;
    write = Files.write p;
    statfs = Files.statfs p;
    flush = Files.flush p;
    release = Files.release p;
    fsync = Files.fsync p;
    truncate_open = Files.truncate_open p;
    setxattr = Attributes.setxattr p;
    getxattr = Attributes.getxattr p;
    listxattr = Attributes.listxattr p;
    removexattr = Attributes.removexattr p;
    opendir = Directories.opendir p;
    readdir = Directories.readdir p;
    releasedir = Directories.releasedir p;
    fsyncdir = Directories.fsyncdir p;
    init = Directories.init p;
  }
