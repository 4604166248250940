-- ===== src/ExampleFs/Paths.antt =====
-- What `AbsPath` of fuse/examplefs.cc builds, and the descriptors and counts that pass through
-- `fileInfo` and `RETURN_ERRNO`.
use redis_virtual_file_syste.Common.{
  ℕ, false, ◌==◌, zero, suc, ◌<◌, ◌≡◌, refl, ◌++◌, Bytes, ℤ, pos, negsuc, some, take, take-whole,
  length-take_within, length, length-append, ltb, leb, if◌then◌else◌, Bool-cases, inl, inr, arith,
  ok, fault,
}
use redis_virtual_file_syste.Posix.{Posix, Answer, return_errno, negated}
use redis_virtual_file_syste.ExampleFs.{ExampleFs, FileInfo, abs_path, handle_of_int, int_of_handle}
use redis_virtual_file_syste.ExampleFs.Files.{open_file, read, write}

-- An `int` of 32 bits.
abbrev pub IsInt : ℤ → Type 0
IsInt (pos n) = n < 2147483648
IsInt (negsuc n) = n < 2147483648

int_of_handle-handle_of_int : (z : ℤ) → IsInt z → int_of_handle (handle_of_int z) ≡ z
unfolding int_of_handle handle_of_int
int_of_handle-handle_of_int (pos n) h = ground arith
int_of_handle-handle_of_int (negsuc n) h = ground arith

module _ (p : Posix) where
  open p use {World, path_max, errno}

  -- With a root, `AbsPath` builds the root with the path behind it if the two and a NUL fit in
  -- PATH_MAX bytes, and else has no defined behaviour: the bound that it gives `strncat` never
  -- cuts a path that fits, and never saves one that does not.
  pub abs_path_bounds :
      (root path : Bytes)
      → abs_path p (record { root = some root }) path
        ≡ (if ltb (length (root ++ path)) path_max then ok (root ++ path) else fault)
  unfolding abs_path
  abs_path_bounds root path = elim (Bool-cases (leb (length path) path_max)) [
    | inl short ↦ rw (take-whole path_max path (ground arith)) refl
    | inr long ↦ ground (
      arith,
      length-append root path,
      length-append root (take path_max path),
      length-take_within path_max path,
    )
  ]

  -- The status of a transfer that has returned a value: 0 for none, and else the errno, negated,
  -- also behind a count of bytes.
  abbrev pub status_of : ℤ → World → ℤ
  status_of (pos zero) w = pos 0
  status_of (pos (suc n)) w = negated (errno w)
  status_of (negsuc n) w = negated (errno w)

  return_errno-status_of :
      {A : Type 0} (a : Answer World A)
      → return_errno p a ≡ record a { value = status_of a.value a.world }
  unfolding return_errno
  return_errno-status_of a = by_value a a.value refl
    where
      by_value :
          {A : Type 0} (a : Answer World A) (z : ℤ)
          → a.value ≡ z
          → return_errno p a ≡ record a { value = status_of z a.world }
      by_value a (pos zero) e = rw e refl
      by_value a (pos (suc n)) e =
          let some_bytes : (suc n == 0) ≡ false = ground arith in rw (e, some_bytes) refl
      by_value a (negsuc n) e = rw e refl

  -- Where the absolute path fits and the host's `open` returns an `int`, `Open` of ExampleFS
  -- returns status 0, also where that is -1, and leaves the host as `open` does. With the
  -- `fuse_file_info` that it leaves, in any later state of the host, `Read` does what `pread`
  -- does with that very descriptor, -1 included, and `Write` what `pwrite` does; their status
  -- is 0 where no byte was moved, and else, behind a count of bytes as behind an error, the
  -- errno, negated.
  pub open_file-read :
      (fs : ExampleFs) (path full_path : Bytes) (info : FileInfo) (w : World)
      → abs_path p fs path ≡ ok full_path
      → let opened = p.open_file full_path info.flags w in
        IsInt opened.value
        → (a : Answer World FileInfo) × (open_file p fs path info w ≡ ok a)
          × (a.value ≡ pos 0)
          × (a.world ≡ opened.world)
          × ((buf : Bytes) (size : ℕ) (offset : ℤ) (w' : World)
              → (let done = p.pread opened.value buf size offset w' in
                  read p path buf size offset a.out w'
                  ≡ record done { value = status_of done.value done.world })
                × (let done = p.pwrite opened.value buf size offset w' in
                    write p path buf size offset a.out w'
                    ≡ record done { value = status_of done.value done.world }))
  unfolding open_file read write
  open_file-read fs path full_path info w e fits =
      let opened = p.open_file full_path info.flags w in
      let same = int_of_handle-handle_of_int opened.value fits in
      (
        record {
          value = pos 0;
          out = record info { fh = handle_of_int opened.value };
          world = opened.world;
        },
        rw e refl,
        refl,
        refl,
        λ buf size offset w'. (
          rw same (return_errno-status_of (p.pread opened.value buf size offset w')),
          rw same (return_errno-status_of (p.pwrite opened.value buf size offset w')),
        ),
      )
