-- ===== src/Refine/Defects.antt =====
-- What the code does where it does not do what it means to.
use redis_virtual_file_syste.Common.{
  ℕ, suc, ◌+◌, ◌<◌, ◌≡◌, ◌≢◌, refl, ap, ◌∙◌, [], ◌∷◌, ◌++◌, codes, pos, minus_one, some, false,
  ◌==◌, arith, ok, length, length-append, bytes_eq,
}
use mathlib.Core.List.{append-nil}
use redis_virtual_file_syste.Libc.Decimal.{decimal, digits, format_lu, strtol}
use redis_virtual_file_syste.Redis.{Redis, IsRedis}
use redis_virtual_file_syste.Keys.{file_info, key_of}
use redis_virtual_file_syste.Vfs.Query.{strtol_behind_first}
use redis_virtual_file_syste.Vfs.Listing.{dir_path_loop, vfs_get_dir_path_from_id}
use redis_virtual_file_syste.Safe.{redis_get_file_parent_id}
use redis_virtual_file_syste.Spec.{Fs, FolderInfo, FileInfo}
use redis_virtual_file_syste.Refine.Represents.{Represents, file_value}
use redis_virtual_file_syste.Refine.Reads.{
  vfs_get_folder_name_lem, folder_parent_reply, in_buffer_fits,
}

decimal_digit : (n : ℕ) → n < 10 → decimal n ≡ (b'0' + n) ∷ []
unfolding decimal digits
decimal_digit n h = ground arith

module _ (r : Redis) (laws : IsRedis r) (d : r.Db) (fs : Fs) (h : Represents r laws d fs) where
  -- `redis_getFileParentId` of an existing file is -1: files are stored without a parent.
  pub file_parent_unknown :
      (n : ℕ) (info : FileInfo)
      → fs.file n ≡ some info
      → redis_get_file_parent_id r d (pos n) ≡ minus_one
  unfolding redis_get_file_parent_id key_of format_lu bytes_eq
  file_parent_unknown n info e =
      rw
        (
          laws.hget-hash d (key_of (file_info n)) (codes "parent") _
              (h (file_info n) ∙ ap file_value e),
          redis_get_file_parent_id,
        )
        refl

  -- On a dataset that represents a file system, `vfs_getDirPathFromId` of a folder that is not
  -- the root and whose parent has an id of one digit returns the folder's own name between
  -- slashes and no name of a folder above it, if that fits the size and there is fuel for two
  -- rounds.
  pub dir_path_one_name :
      (fuel n size : ℕ) (info : FolderInfo)
      → fs.folder n ≡ some info
      → n ≢ 0
      → info.parent < 10
      → length info.name + 2 < size
      → vfs_get_dir_path_from_id r (suc (suc fuel)) d (pos n) size
        ≡ ok (b'/' ∷ (info.name ++ (b'/' ∷ [])))
  unfolding vfs_get_dir_path_from_id dir_path_loop strtol_behind_first strtol key_of format_lu
  dir_path_one_name fuel n size info found positive small fits =
      let below : (n == 0) ≡ false = ground arith in
      rw (below, vfs_get_folder_name_lem r laws d fs h n info found size (omega arith))
        (rw (append-nil, in_buffer_fits size (b'/' ∷ info.name) (omega arith))
          (rw (folder_parent_reply r laws d fs h n info found, decimal_digit info.parent small)
            (in_buffer_fits size (b'/' ∷ (info.name ++ (b'/' ∷ [])))
              (omega (arith, length-append info.name (b'/' ∷ []))))))
