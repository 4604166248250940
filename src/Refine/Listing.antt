-- ===== src/Refine/Listing.antt =====
-- `ls` of virtualFileSystemWrapper.cc: the names in a folder.
use redis_virtual_file_syste.Common.{
  ℕ, ◌≡◌, ◌≢◌, refl, sym, ap, ◌∙◌, List, [], ◌∷◌, ◌++◌, map, Bytes, ℤ, pos, none, some, ok, All,
}
use redis_virtual_file_syste.Libc.Decimal.{decimal, format_lu, strtol}
use redis_virtual_file_syste.Redis.{Redis, IsRedis, absent}
use redis_virtual_file_syste.Keys.{folder_info, key_of}
use redis_virtual_file_syste.Safe.{redis_is_directory, redis_get_folder_ids, redis_get_file_ids}
use redis_virtual_file_syste.Wrapper.Items.{get_dir_item_info_of_id, names_of_ids, ls_of_id}
use redis_virtual_file_syste.Spec.{Fs, FolderInfo, FileInfo}
use redis_virtual_file_syste.Spec.Tree.{IsTree, IsSubfolder, IsFileEntry}
use redis_virtual_file_syste.Refine.Represents.{Represents, folder_value}
use redis_virtual_file_syste.Refine.Reads.{
  redis_get_folder_name_lem, redis_get_file_name_lem, folders_reply, files_reply,
}
use redis_virtual_file_syste.Refine.Find.{strtol-folder, strtol-file}

abbrev pub name_of_folder : Fs → ℕ → Bytes
name_of_folder fs id = elim (fs.folder id) [ none ↦ [] | some info ↦ info.name ]

abbrev pub name_of_file : Fs → ℕ → Bytes
name_of_file fs id = elim (fs.file id) [ none ↦ [] | some info ↦ info.name ]

-- The names of the folders, the newest first, then those of the files.
abbrev pub names_in : Fs → ℕ → List Bytes
names_in fs dir = map (name_of_folder fs) (fs.folders dir) ++ map (name_of_file fs) (fs.files dir)

folder_value-ne-absent : (info : FolderInfo) → folder_value (some info) ≢ absent
folder_value-ne-absent info e = cc

module _ (r : Redis) (laws : IsRedis r) (d : r.Db) (fs : Fs) (h : Represents r laws d fs)
    (t : IsTree fs) where
  pub is_directory-folder :
      (n : ℕ) (info : FolderInfo) → fs.folder n ≡ some info → redis_is_directory r d (pos n) ≡ 1
  unfolding redis_is_directory key_of format_lu
  is_directory-folder n info e =
      rw
        (
          laws.exists-present d (key_of (folder_info n)) (λ gone.
              folder_value-ne-absent info (sym (h (folder_info n) ∙ ap folder_value e) ∙ gone)),
          redis_is_directory,
        )
        refl

  pub is_directory-none : (n : ℕ) → fs.folder n ≡ none → redis_is_directory r d (pos n) ≡ 0
  unfolding redis_is_directory key_of format_lu
  is_directory-none n e =
      rw
        (
          laws.exists-absent d (key_of (folder_info n)) (h (folder_info n) ∙ ap folder_value e),
          redis_is_directory,
        )
        refl

  folder_item_name :
      (n : ℕ) (info : FolderInfo) (rest : List ℤ) (names : List Bytes)
      → fs.folder n ≡ some info
      → names_of_ids r d rest ≡ ok names
      → names_of_ids r d (pos n ∷ rest) ≡ ok (name_of_folder fs n ∷ names)
  unfolding names_of_ids get_dir_item_info_of_id
  folder_item_name n info rest names e tail =
      rw (is_directory-folder n info e, redis_get_folder_name_lem r laws d fs h n info e)
        (rw (tail, e, name_of_folder) refl)

  file_item_name :
      (n : ℕ) (info : FileInfo) (rest : List ℤ) (names : List Bytes)
      → fs.file n ≡ some info
      → names_of_ids r d rest ≡ ok names
      → names_of_ids r d (pos n ∷ rest) ≡ ok (name_of_file fs n ∷ names)
  unfolding names_of_ids get_dir_item_info_of_id
  file_item_name n info rest names e tail =
      rw (is_directory-none n (t.apart n info e), redis_get_file_name_lem r laws d fs h n info e)
        (rw (tail, e, name_of_file) refl)

  names_of_files :
      (ids : List ℕ)
      → All (IsFileEntry fs) ids
      → names_of_ids r d (map strtol (map decimal ids)) ≡ ok (map (name_of_file fs) ids)
  names_of_files [] entries = unfold names_of_ids in refl
  names_of_files (id ∷ ids) (entry, entries) =
      rw (strtol-file r laws d fs h t id entry.info entry.found)
        (file_item_name id entry.info _ _ entry.found (names_of_files ids entries))

  names_of_folders :
      (dir : ℕ) (ids : List ℕ) (rest : List ℤ) (names : List Bytes)
      → All (IsSubfolder fs dir) ids
      → names_of_ids r d rest ≡ ok names
      → names_of_ids r d (map strtol (map decimal ids) ++ rest)
        ≡ ok (map (name_of_folder fs) ids ++ names)
  names_of_folders dir [] rest names entries tail = tail
  names_of_folders dir (id ∷ ids) rest names (entry, entries) tail =
      rw (strtol-folder r laws d fs h t id entry.info entry.found) (
        folder_item_name id entry.info _ _ entry.found
          (names_of_folders dir ids rest names entries tail))

  pub ls_of_id-names_in : (dir : ℕ) → ls_of_id r d (pos dir) ≡ ok (names_in fs dir)
  unfolding ls_of_id redis_get_folder_ids redis_get_file_ids key_of format_lu
  ls_of_id-names_in dir =
      rw (folders_reply r laws d fs h dir, files_reply r laws d fs h dir)
        (names_of_folders dir (fs.folders dir) _ _ (t.subfolders dir)
          (names_of_files (fs.files dir) (t.entries dir)))
