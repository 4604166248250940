-- ===== src/Refine/ObjectListing.antt =====
-- `vfs_ls` of vfs.c lists what `ls` of the wrapper lists.
use redis_virtual_file_syste.Common.{ℕ, ◌≡◌, refl, sym, ◌∙◌, List, [], ◌∷◌, pos, map, All, ok}
use redis_virtual_file_syste.Libc.Decimal.{decimal, format_lu}
use redis_virtual_file_syste.Redis.{Redis, IsRedis}
use redis_virtual_file_syste.Keys.{key_of}
use redis_virtual_file_syste.Vfs.Query.{max_filename_size}
use redis_virtual_file_syste.Vfs.Listing.{vfs_ls, folder_names, file_names}
use redis_virtual_file_syste.Wrapper.Items.{ls_of_id}
use redis_virtual_file_syste.Spec.{Fs}
use redis_virtual_file_syste.Spec.Tree.{IsTree, IsSubfolder, IsFileEntry}
use redis_virtual_file_syste.Refine.Represents.{Represents}
use redis_virtual_file_syste.Refine.Reads.{
  vfs_get_folder_name_lem, vfs_get_file_name_lem, folders_reply, files_reply,
}
use redis_virtual_file_syste.Refine.Find.{strtol-folder, strtol-file}
use redis_virtual_file_syste.Refine.Listing.{
  name_of_folder, name_of_file, names_in, ls_of_id-names_in,
}

module _ (r : Redis) (laws : IsRedis r) (d : r.Db) (fs : Fs) (h : Represents r laws d fs)
    (t : IsTree fs) where
  folder_names-map :
      (dir : ℕ) (ids : List ℕ)
      → All (IsSubfolder fs dir) ids
      → folder_names r d (map decimal ids) ≡ ok (map (name_of_folder fs) ids)
  unfolding folder_names
  folder_names-map dir [] all = refl
  folder_names-map dir (id ∷ ids) (sub, all) =
      rw
        (
          strtol-folder r laws d fs h t id sub.info sub.found,
          vfs_get_folder_name_lem r laws d fs h id sub.info sub.found max_filename_size
              sub.name_fits,
        )
        (rw (folder_names-map dir ids all, sub.found, name_of_folder) refl)

  file_names-map :
      (ids : List ℕ)
      → All (IsFileEntry fs) ids
      → file_names r d (map decimal ids) ≡ ok (map (name_of_file fs) ids)
  unfolding file_names
  file_names-map [] all = refl
  file_names-map (id ∷ ids) (entry, all) =
      rw
        (
          strtol-file r laws d fs h t id entry.info entry.found,
          vfs_get_file_name_lem r laws d fs h id entry.info entry.found max_filename_size
              entry.name_fits,
        )
        (rw (file_names-map ids all, entry.found, name_of_file) refl)

  pub vfs_ls-names_in : (dir : ℕ) → vfs_ls r d (pos dir) ≡ ok (names_in fs dir)
  unfolding vfs_ls key_of format_lu
  vfs_ls-names_in dir =
      rw (folders_reply r laws d fs h dir, files_reply r laws d fs h dir)
        (rw
          (
            folder_names-map dir (fs.folders dir) (t.subfolders dir),
            file_names-map (fs.files dir) (t.entries dir),
          )
          refl)

  -- On a dataset that represents a well-formed file system, `vfs_ls` of any id that is not
  -- negative returns the same names as the wrapper's `ls` of that id.
  pub vfs_ls-ls_of_id : (dir : ℕ) → vfs_ls r d (pos dir) ≡ ls_of_id r d (pos dir)
  vfs_ls-ls_of_id dir = vfs_ls-names_in dir ∙ sym (ls_of_id-names_in r laws d fs h t dir)
