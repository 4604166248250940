-- ===== src/Refine/Items.antt =====
-- `getDirItemInfo` by id and `ls` by path of virtualFileSystemWrapper.cc, and `Readdir` of
-- redisfs.cc on them.
use redis_virtual_file_syste.Common.{
  ℕ, ◌≡◌, refl, ◌∷◌, Bytes, pos, minus_one, some, false, arith, ok,
}
use redis_virtual_file_syste.Redis.{Redis, IsRedis}
use redis_virtual_file_syste.Wrapper.Paths.{get_folder_id_from_path}
use redis_virtual_file_syste.Wrapper.Items.{
  dir_item_folder, dir_item_file, get_dir_item_info_of_id, ls,
}
use redis_virtual_file_syste.Fuse.{fill_loop, readdir}
use redis_virtual_file_syste.Spec.{Fs, FolderInfo, FileInfo}
use redis_virtual_file_syste.Spec.Tree.{IsTree, parent-lt-next}
use redis_virtual_file_syste.Spec.Lookup.{resolve_dir}
use redis_virtual_file_syste.Spec.Path.{IsNamed}
use redis_virtual_file_syste.Spec.Command.{IsCwd, slash_ended}
use redis_virtual_file_syste.Refine.Represents.{Represents}
use redis_virtual_file_syste.Refine.Reads.{
  redis_get_folder_name_lem, redis_get_file_name_lem, redis_get_folder_parent_id_lem,
}
use redis_virtual_file_syste.Refine.Context.{
  get_dir_id_from_path-resolve_dir, get_cwd_id_lem, cwd-exists,
}
use redis_virtual_file_syste.Refine.Listing.{
  names_in, ls_of_id-names_in, is_directory-folder, is_directory-none,
}
use redis_virtual_file_syste.Refine.Defects.{file_parent_unknown}

module _ (r : Redis) (laws : IsRedis r) (d : r.Db) (fs : Fs) (h : Represents r laws d fs)
    (t : IsTree fs) where
  pub get_dir_item_info_of_id-folder :
      (n : ℕ) (info : FolderInfo)
      → fs.folder n ≡ some info
      → get_dir_item_info_of_id r d (pos n)
        ≡ ok (record {
          id = pos n;
          exists = false;
          type = dir_item_folder;
          parent_id = pos info.parent;
          name = info.name;
        })
  unfolding get_dir_item_info_of_id
  get_dir_item_info_of_id-folder n info e =
      rw
        (
          is_directory-folder r laws d fs h t n info e,
          redis_get_folder_name_lem r laws d fs h n info e,
          redis_get_folder_parent_id_lem r laws d fs h n info e
              (omega (arith, parent-lt-next fs t n info e, t.ids_fit)),
        )
        refl

  pub get_dir_item_info_of_id-file :
      (n : ℕ) (info : FileInfo)
      → fs.file n ≡ some info
      → get_dir_item_info_of_id r d (pos n)
        ≡ ok (record {
          id = pos n;
          exists = false;
          type = dir_item_file;
          parent_id = minus_one;
          name = info.name;
        })
  unfolding get_dir_item_info_of_id
  get_dir_item_info_of_id-file n info e =
      rw
        (
          is_directory-none r laws d fs h t n (t.apart n info e),
          redis_get_file_name_lem r laws d fs h n info e,
          file_parent_unknown r laws d fs h n info e,
        )
        refl

  module _ (named : IsNamed fs) (cwd : Bytes) (id : ℕ) (at : IsCwd fs cwd id) (c : ℕ) (s : Bytes)
      (dir : ℕ) (leads : resolve_dir fs id (slash_ended (c ∷ s)) ≡ some dir) where
    -- `ls` of a path that leads to a folder returns the names in the folder.
    pub ls-names_in : ls r d cwd (c ∷ s) ≡ ok (names_in fs dir)
    unfolding ls get_folder_id_from_path
    ls-names_in = rw (get_cwd_id_lem r laws d fs h t named cwd id at) (
        rw
          (
            get_dir_id_from_path-resolve_dir r laws d fs h t id c s
                (cwd-exists r laws d fs h t named cwd id at),
            leads,
          )
          (ls_of_id-names_in r laws d fs h t dir))

    -- On a dataset that represents a well-formed file system in which every folder is found by
    -- its own name in its parent and no folder name has a slash, in a current directory that is
    -- the absolute path of a folder, `Readdir` of a path whose names are all folders runs
    -- FUSE's callback, whatever it is, through the loop over the names of the last folder's
    -- folders and then of its files, in the order of their lists.
    pub readdir-names_in :
        {B : Type 0} (filler : B → Bytes → ℕ × B) (buf : B)
        → readdir r filler buf d cwd (c ∷ s) ≡ ok (fill_loop filler buf (names_in fs dir))
    unfolding readdir
    readdir-names_in filler buf = rw ls-names_in refl
