-- ===== src/ExampleFs/Files.antt =====
-- The callbacks of fuse/examplefs.cc on open files: from `Open` to `Fsync`, and `Truncate` of an
-- open file. A callback that sets `fileInfo` returns it beside the status.
use redis_virtual_file_syste.Common.{ℕ, Bytes, ℤ, pos, Bool, if◌then◌else◌, Outcome, ok, ◌>>=◌}
use redis_virtual_file_syste.Posix.{Posix, Answer, return_errno}
use redis_virtual_file_syste.ExampleFs.{ExampleFs, FileInfo, abs_path, handle_of_int, int_of_handle}

module _ (p : Posix) where
  open p use {World, StatVfs}

  -- `Open` returns 0 also where `open` fails.
  unfoldable pub open_file : ExampleFs → Bytes → FileInfo → World → Outcome (Answer World FileInfo)
  open_file fs path file_info w = do
    full_path ← abs_path p fs path
    let opened = p.open_file full_path file_info.flags w
    ok (record {
      value = pos 0;
      out = record file_info { fh = handle_of_int opened.value };
      world = opened.world;
    })

  unfoldable pub read : Bytes → Bytes → ℕ → ℤ → FileInfo → World → Answer World Bytes
  read path buf size offset file_info w =
      return_errno p (p.pread (int_of_handle file_info.fh) buf size offset w)

  unfoldable pub write : Bytes → Bytes → ℕ → ℤ → FileInfo → World → Answer World (Unit {0})
  write path buf size offset file_info w =
      return_errno p (p.pwrite (int_of_handle file_info.fh) buf size offset w)

  unfoldable pub statfs : ExampleFs → Bytes → StatVfs → World → Outcome (Answer World StatVfs)
  statfs fs path stat_info w = do
    full_path ← abs_path p fs path
    ok (return_errno p (p.statvfs full_path stat_info w))

  unfoldable pub flush : Bytes → FileInfo → World → Answer World (Unit {0})
  flush path file_info w = record { value = pos 0; out = tt; world = w }

  unfoldable pub release : Bytes → FileInfo → World → Answer World (Unit {0})
  release path file_info w = record { value = pos 0; out = tt; world = w }

  unfoldable pub fsync : Bytes → Bool → FileInfo → World → Answer World (Unit {0})
  fsync path datasync fi w =
      if datasync
      then return_errno p (p.fdatasync (int_of_handle fi.fh) w)
      else return_errno p (p.fsync (int_of_handle fi.fh) w)

  -- `Truncate` of an open file; it builds the absolute path and does not use it.
  unfoldable pub truncate_open :
      ExampleFs → Bytes → ℤ → FileInfo → World → Outcome (Answer World (Unit {0}))
  truncate_open fs path offset file_info w = do
    full_path ← abs_path p fs path
    ok (return_errno p (p.ftruncate (int_of_handle file_info.fh) offset w))
