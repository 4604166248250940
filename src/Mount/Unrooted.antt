-- ===== src/Mount/Unrooted.antt =====
-- The program of fuse/main.c under any sequence of FUSE's requests. Nothing in it calls
-- `setRootDir`, and a request with a path needs the root.
use redis_virtual_file_syste.Common.{
  ℕ, ◌≡◌, refl, Bytes, true, none, Outcome, Outcome-cases, ok, fault, arith, inl, inr,
}
use redis_virtual_file_syste.Posix.{Posix, Answer}
use redis_virtual_file_syste.ExampleFs.{ExampleFs, instance_of, abs_path}
use redis_virtual_file_syste.Mount.State.{Program, through}
use redis_virtual_file_syste.Mount.Wrap.{
  wrap_getattr, wrap_readlink, wrap_mknod, wrap_mkdir, wrap_unlink, wrap_rmdir, wrap_symlink,
  wrap_rename, wrap_link, wrap_chmod, wrap_chown, wrap_truncate, wrap_utime, wrap_open, wrap_read,
  wrap_write, wrap_statfs, wrap_flush, wrap_release, wrap_fsync, wrap_setxattr, wrap_getxattr,
  wrap_listxattr, wrap_removexattr, wrap_opendir, wrap_readdir, wrap_releasedir, wrap_fsyncdir,
  wrap_init,
}
use redis_virtual_file_syste.ExampleFs.Nodes
use redis_virtual_file_syste.ExampleFs.Files
use redis_virtual_file_syste.ExampleFs.Attributes
use redis_virtual_file_syste.ExampleFs.Directories
use redis_virtual_file_syste.Mount.Requests.{
  Request, Reach, here, next, handled, takes_path, state_after, readdir,
}

-- The object has no root.
abbrev pub IsUnrooted : {World : Type 0} → Program World → Type 0
IsUnrooted s = (instance_of s.the_instance).root ≡ none

through-IsUnrooted :
    {World A : Type 0} (callback : ExampleFs → World → Outcome (Answer World A))
    (s s' : Program World)
    → state_after (through callback s) ≡ ok s'
    → IsUnrooted s
    → IsUnrooted s'
through-IsUnrooted callback s s' e unrooted =
    elim (Outcome-cases (callback (instance_of s.the_instance) s.world)) [
      | inl (a, returned) ↦ cc (rw returned at e)
      | inr (inl other) ↦ cc (rw other at e)
      | inr (inr (inl other)) ↦ cc (rw other at e)
      | inr (inr (inr other)) ↦ cc (rw other at e)
    ]

module _ (p : Posix) (B : Type 0) where
  open p use {World}

  -- What a request with a path does without a root, and any other.
  abbrev Unserved : Request p B → Outcome (Program World) → Type 0
  Unserved q outcome =
      (takes_path p B q ≡ true → outcome ≡ fault)
      × ((s' : Program World) → outcome ≡ ok s' → IsUnrooted s')

  abs_path_unrooted : (fs : ExampleFs) (path : Bytes) → fs.root ≡ none → abs_path p fs path ≡ fault
  unfolding wrap_readdir abs_path
  abs_path_unrooted fs path e = rw e refl

  handled-Unserved :
      (fuel : ℕ) (q : Request p B) (s : Program World)
      → IsUnrooted s
      → Unserved q (handled p B fuel q s)
  unfolding handled wrap_getattr wrap_readlink wrap_mknod wrap_mkdir wrap_unlink wrap_rmdir
      wrap_symlink wrap_rename wrap_link wrap_chmod wrap_chown wrap_truncate wrap_utime wrap_open
      wrap_read wrap_write wrap_statfs wrap_flush wrap_release wrap_fsync wrap_setxattr
      wrap_getxattr wrap_listxattr wrap_removexattr wrap_opendir wrap_releasedir wrap_fsyncdir
      wrap_init Nodes.getattr Nodes.readlink Nodes.mknod Nodes.mkdir Nodes.unlink Nodes.rmdir
      Nodes.symlink Nodes.rename Nodes.link Nodes.chmod Nodes.chown Nodes.truncate Nodes.utime
      Files.open_file Files.read Files.write Files.statfs Files.flush Files.release Files.fsync
      Attributes.setxattr Attributes.getxattr Attributes.listxattr Attributes.removexattr
      Directories.opendir Directories.releasedir Directories.fsyncdir Directories.init wrap_readdir
      abs_path
  handled-Unserved fuel (readdir filler buf info) s e = (
    λ k. cc,
    λ s' k. through-IsUnrooted (λ fs w. Directories.readdir p fuel filler buf info w) s s' k e,
  )
  handled-Unserved fuel q s e = ground arith

  Reach-IsUnrooted :
      (fuel : ℕ) (start s : Program World)
      → IsUnrooted start
      → Reach p B fuel start s
      → IsUnrooted s
  Reach-IsUnrooted fuel start s unrooted here = unrooted
  Reach-IsUnrooted fuel start s unrooted (next {s = before} q reach e) =
      (handled-Unserved fuel q before (Reach-IsUnrooted fuel start before unrooted reach)).1 s e

  -- From the start of the program of fuse/main.c, after any requests that it has answered, a
  -- request whose callback builds an absolute path has no defined behaviour, since nothing has
  -- set the root.
  pub handled-Reach_new :
      (fuel : ℕ) (w : World) (s : Program World) (q : Request p B)
      → Reach p B fuel (record { the_instance = none; world = w }) s
      → takes_path p B q ≡ true
      → handled p B fuel q s ≡ fault
  handled-Reach_new fuel w s q reach path =
      (handled-Unserved fuel q s (Reach-IsUnrooted fuel _ s refl reach)).0 path
