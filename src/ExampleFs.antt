-- ===== src/ExampleFs.antt =====
-- fuse/examplefs.cc: a file system that passes each request on to the host's, below a root.
-- The children have its callbacks, in the source's order.
pub mod Nodes
pub mod Files
pub mod Attributes
pub mod Directories
pub mod Paths
pub mod Listing
pub mod Class
use redis_virtual_file_syste.Common.{
  ℕ, ◌+◌, ◌-◌, ◌%◌, ◌++◌, Bytes, ℤ, pos, negsuc, Option, none, some, take, length, ltb,
  if◌then◌else◌, Outcome, ok, fault,
}
use redis_virtual_file_syste.Posix.{Posix}

-- `_root` is `none` until `setRootDir`: the constructor leaves it uninitialised.
pub record ExampleFs : Type 0 where
  pub root : Option Bytes

abbrev pub new_example_fs : ExampleFs
new_example_fs = record { root = none }

-- `Instance`: the one object, made when it is first asked for.
abbrev pub instance_of : Option ExampleFs → ExampleFs
instance_of none = new_example_fs
instance_of (some fs) = fs

unfoldable pub set_root_dir : Bytes → ExampleFs → ExampleFs
set_root_dir path fs = record fs { root = some path }

-- The fields of `struct fuse_file_info` that the callbacks use: `uint64_t fh` and `int flags`.
pub record FileInfo : Type 0 where
  pub fh : ℕ
  pub flags : ℤ

-- An `int` in a `uint64_t`, and a `uint64_t` in an `int`.
unfoldable pub handle_of_int : ℤ → ℕ
handle_of_int (pos n) = n % 18446744073709551616
handle_of_int (negsuc n) = 18446744073709551615 - n % 18446744073709551616

abbrev signed_of_low : ℕ → ℤ
signed_of_low m = if ltb m 2147483648 then pos m else negsuc (4294967295 - m)

unfoldable pub int_of_handle : ℕ → ℤ
int_of_handle fh = signed_of_low (fh % 4294967296)

module _ (p : Posix) where
  open p use {path_max}

  -- `AbsPath` into a buffer of PATH_MAX bytes: undefined if there is no root, or if the text and
  -- its NUL do not fit. `strncat` appends at most PATH_MAX bytes of the path.
  unfoldable pub abs_path : ExampleFs → Bytes → Outcome Bytes
  abs_path fs path = elim fs.root [
    | none ↦ fault
    | some root ↦
        let dest = root ++ take path_max path in
        if ltb (length dest) path_max then ok dest else fault
  ]
