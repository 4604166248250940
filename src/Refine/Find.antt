-- ===== src/Refine/Find.antt =====
-- The searches of vfs.c for a name in a folder, against those of the abstract file system.
use redis_virtual_file_syste.Common.{
  ℕ, ◌≡◌, ◌≢◌, ◌∙◌, refl, ap, List, [], ◌∷◌, ◌++◌, Bytes, map, ℤ, pos, minus_one, Option, none,
  some, length, if◌then◌else◌, arith, bytes_eq, All, ok, Option-cases, inl, inr,
}
use redis_virtual_file_syste.Libc.Decimal.{decimal, format_lu, strtol}
use redis_virtual_file_syste.Libc.RoundTrip.{strtol-decimal}
use redis_virtual_file_syste.Redis.{Redis, IsRedis}
use redis_virtual_file_syste.Keys.{key_of}
use redis_virtual_file_syste.Vfs.Query.{max_filename_size, vfs_get_dir_parent}
use redis_virtual_file_syste.Vfs.Find.{
  find_file_loop, vfs_find_file_name_in_dir, find_dir_loop, vfs_find_dir_name_in_dir,
}
use redis_virtual_file_syste.Spec.{Fs, FolderInfo, FileInfo}
use redis_virtual_file_syste.Spec.Tree.{
  IsTree, IsSubfolder, IsFileEntry, folder-lt-next, file-lt-next, parent-lt-next,
}
use redis_virtual_file_syste.Spec.Lookup.{
  is_prefix, first_folder, last_file, find_folder, find_file, parent_of,
}
use redis_virtual_file_syste.Refine.Represents.{Represents}
use redis_virtual_file_syste.Refine.Reads.{
  vfs_get_folder_name_lem, vfs_get_file_name_lem, vfs_get_dir_parent_lem, folders_reply,
  files_reply,
}
use redis_virtual_file_syste.Refine.Names.{
  EndsName, strncmp_eq-file, strncmp_eq-prefix, is_dot, is_dot_dot,
}

-- An id, or what stands for none.
abbrev pub id_or : Option ℕ → ℤ → ℤ
id_or none z = z
id_or (some id) z = pos id

module _ (r : Redis) (laws : IsRedis r) (d : r.Db) (fs : Fs) (h : Represents r laws d fs)
    (t : IsTree fs) where
  pub strtol-folder :
      (n : ℕ) (info : FolderInfo) → fs.folder n ≡ some info → strtol (decimal n) ≡ pos n
  strtol-folder n info e = strtol-decimal n (omega (arith, folder-lt-next fs t n info e, t.ids_fit))

  pub strtol-file : (n : ℕ) (info : FileInfo) → fs.file n ≡ some info → strtol (decimal n) ≡ pos n
  strtol-file n info e = strtol-decimal n (omega (arith, file-lt-next fs t n info e, t.ids_fit))

  -- `vfs_getDirParent` of an existing folder.
  pub vfs_get_dir_parent-parent_of :
      (dir : ℕ)
      → fs.folder dir ≢ none
      → vfs_get_dir_parent r d (pos dir) ≡ ok (id_or (parent_of fs dir) minus_one)
  vfs_get_dir_parent-parent_of dir exists = elim (Option-cases (fs.folder dir)) [
    | inl missing ↦ absurd (exists missing)
    | inr (info, e) ↦
        rw (e, parent_of, id_or)
          (vfs_get_dir_parent_lem r laws d fs h dir info e
            (omega (arith, parent-lt-next fs t dir info e, t.ids_fit)))
  ]

  module _ (c rest : Bytes) (ends : EndsName rest) where
    -- One round of `last_file` at a file that exists.
    id_or-last_file :
        (id : ℕ) (ids : List ℕ) (info : FileInfo) (match_id : ℤ)
        → fs.file id ≡ some info
        → id_or (last_file fs c ids) (if bytes_eq c info.name then pos id else match_id)
          ≡ id_or (last_file fs c (id ∷ ids)) match_id
    unfolding last_file
    id_or-last_file id ids info match_id e = ground arith

    find_file_loop-last_file :
        (ids : List ℕ) (match_id : ℤ)
        → All (IsFileEntry fs) ids
        → find_file_loop r d (c ++ rest) (length c) (map decimal ids) match_id
          ≡ ok (id_or (last_file fs c ids) match_id)
    unfolding find_file_loop
    find_file_loop-last_file [] match_id entries = unfold last_file in refl
    find_file_loop-last_file (id ∷ ids) match_id (entry, entries) =
        rw (strtol-file id entry.info entry.found) (
          rw
            (vfs_get_file_name_lem r laws d fs h id entry.info entry.found max_filename_size
              entry.name_fits)
            (rw (strncmp_eq-file c rest entry.info.name ends entry.name_plain) (
              find_file_loop-last_file ids _ entries
              ∙ ap ok (id_or-last_file id ids entry.info match_id entry.found))))

    pub vfs_find_file_name_in_dir-find_file :
        (dir : ℕ)
        → vfs_find_file_name_in_dir r d (pos dir) (c ++ rest) (length c)
          ≡ ok (id_or (find_file fs dir c) minus_one)
    unfolding vfs_find_file_name_in_dir find_file format_lu key_of
    vfs_find_file_name_in_dir-find_file dir =
        rw (files_reply r laws d fs h dir)
          (find_file_loop-last_file (fs.files dir) minus_one (t.entries dir))

    id_or-first_folder :
        (id : ℕ) (ids : List ℕ) (info : FolderInfo)
        → fs.folder id ≡ some info
        → (if is_prefix c info.name
            then ok (pos id)
            else ok (id_or (first_folder fs c ids) minus_one))
          ≡ ok (id_or (first_folder fs c (id ∷ ids)) minus_one)
    unfolding first_folder
    id_or-first_folder id ids info e = ground arith

    find_dir_loop-first_folder :
        (dir : ℕ) (ids : List ℕ)
        → All (IsSubfolder fs dir) ids
        → find_dir_loop r d (c ++ rest) (length c) (map decimal ids)
          ≡ ok (id_or (first_folder fs c ids) minus_one)
    unfolding find_dir_loop
    find_dir_loop-first_folder dir [] entries = unfold first_folder in refl
    find_dir_loop-first_folder dir (id ∷ ids) (entry, entries) =
        rw (strtol-folder id entry.info entry.found) (
          rw
            (vfs_get_folder_name_lem r laws d fs h id entry.info entry.found max_filename_size
              entry.name_fits)
            (rw
              (strncmp_eq-prefix c rest entry.info.name, find_dir_loop-first_folder dir ids entries)
              (id_or-first_folder id ids entry.info entry.found)))

    -- On a dataset that represents a well-formed file system, `vfs_findDirNameInDir` in an
    -- existing folder, of a name that the end of the text or a slash follows, returns the
    -- folder itself for `.`, its parent for `..`, and else the first folder of its list whose
    -- name starts with the name that is looked for, or -1.
    pub vfs_find_dir_name_in_dir-find_folder :
        (dir : ℕ) (info : FolderInfo)
        → fs.folder dir ≡ some info
        → vfs_find_dir_name_in_dir r d (pos dir) (c ++ rest) (length c)
          ≡ ok (id_or (find_folder fs dir c) minus_one)
    unfolding vfs_find_dir_name_in_dir find_folder format_lu key_of
    vfs_find_dir_name_in_dir-find_folder dir info e =
        rw (is_dot c rest, is_dot_dot c rest, folders_reply r laws d fs h dir)
          (rw
            (
              find_dir_loop-first_folder dir (fs.folders dir) (t.subfolders dir),
              vfs_get_dir_parent_lem r laws d fs h dir info e
                  (omega (arith, parent-lt-next fs t dir info e, t.ids_fit)),
            )
            (ground arith))
