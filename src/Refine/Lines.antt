-- ===== src/Refine/Lines.antt =====
-- `getFiles`, `getFolders` and `ls_pretty_print` of virtualFileSystemWrapper.cc: the names in a
-- folder, a line each.
use redis_virtual_file_syste.Common.{
  ℕ, ◌≡◌, refl, ap, ◌∙◌, List, [], ◌∷◌, ◌++◌, sym, Bytes, ℤ, minus_one, Option, none, some, map,
  All, ok,
}
use mathlib.Core.List.{append_assoc}
use redis_virtual_file_syste.Libc.Decimal.{decimal, format_lu, strtol}
use redis_virtual_file_syste.Redis.{Redis, IsRedis}
use redis_virtual_file_syste.Keys.{key_of}
use redis_virtual_file_syste.PathParser.State.{init_parser_state}
use redis_virtual_file_syste.Safe.{
  File, Folder, redis_get_folder, redis_get_file, folders_of_ids, files_of_ids, redis_get_folders,
  redis_get_files, redis_get_folder_ids, redis_get_file_ids,
}
use redis_virtual_file_syste.Wrapper.Commands.{
  get_files, get_folders, folder_lines, file_lines, ls_pretty_print,
}
use redis_virtual_file_syste.Spec.{Fs}
use redis_virtual_file_syste.Spec.Tree.{IsTree, IsSubfolder, IsFileEntry}
use redis_virtual_file_syste.Spec.Lookup.{resolve_dir}
use redis_virtual_file_syste.Spec.Path.{IsNamed}
use redis_virtual_file_syste.Spec.Command.{IsCwd, slash_ended}
use redis_virtual_file_syste.Refine.Represents.{Represents}
use redis_virtual_file_syste.Refine.Reads.{
  redis_get_folder_name_lem, redis_get_file_name_lem, folders_reply, files_reply,
}
use redis_virtual_file_syste.Refine.Find.{strtol-folder, strtol-file, id_or}
use redis_virtual_file_syste.Refine.Listing.{name_of_folder, name_of_file, names_in}
use redis_virtual_file_syste.Refine.Stat.{get_folder_id_from_path-resolve_dir}

-- The names, a line each.
abbrev pub lines_of : List Bytes → Bytes
lines_of [] = []
lines_of (name ∷ names) = name ++ ((10 ∷ []) ++ lines_of names)

-- The folder that a listing reads: where a path leads nowhere, what -1 prints as.
abbrev pub listed : Option ℕ → ℕ
listed none = 18446744073709551615
listed (some n) = n

lines_of-append : (a b : List Bytes) → lines_of (a ++ b) ≡ lines_of a ++ lines_of b
lines_of-append [] b = refl
lines_of-append (name ∷ a) b =
    ap (λ k. name ++ (10 ∷ k)) (lines_of-append a b)
    ∙ sym (append_assoc name (10 ∷ lines_of a) (lines_of b))

module _ (r : Redis) (laws : IsRedis r) (d : r.Db) (fs : Fs) (h : Represents r laws d fs)
    (t : IsTree fs) where
  folders_of_ids-lines :
      (dir : ℕ) (ids : List ℕ)
      → All (IsSubfolder fs dir) ids
      → (folders : List Folder) × (folders_of_ids r d (map strtol (map decimal ids)) ≡ ok folders)
        × (folder_lines folders ≡ lines_of (map (name_of_folder fs) ids))
  unfolding folders_of_ids redis_get_folder
  folders_of_ids-lines dir [] all = ([], refl, refl)
  folders_of_ids-lines dir (id ∷ ids) (sub, all) =
      let (folders, e, same) = folders_of_ids-lines dir ids all in
      rw
        (
          strtol-folder r laws d fs h t id sub.info sub.found,
          redis_get_folder_name_lem r laws d fs h id sub.info sub.found,
        )
        (rw (e, sub.found, name_of_folder) (_, refl, ap (λ k. sub.info.name ++ (10 ∷ k)) same))

  files_of_ids-lines :
      (ids : List ℕ)
      → All (IsFileEntry fs) ids
      → (files : List File) × (files_of_ids r d (map strtol (map decimal ids)) ≡ ok files)
        × (file_lines files ≡ lines_of (map (name_of_file fs) ids))
  unfolding files_of_ids redis_get_file
  files_of_ids-lines [] all = ([], refl, refl)
  files_of_ids-lines (id ∷ ids) (entry, all) =
      let (files, e, same) = files_of_ids-lines ids all in
      rw
        (
          strtol-file r laws d fs h t id entry.info entry.found,
          redis_get_file_name_lem r laws d fs h id entry.info entry.found,
        )
        (rw (e, entry.found, name_of_file) (_, refl, ap (λ k. entry.info.name ++ (10 ∷ k)) same))

  -- An id that prints as `n`.
  module _ (z : ℤ) (n : ℕ) (prints : format_lu z ≡ decimal n) where
    redis_get_folders-lines :
        (folders : List Folder) × (redis_get_folders r d z ≡ ok folders)
        × (folder_lines folders ≡ lines_of (map (name_of_folder fs) (fs.folders n)))
    unfolding redis_get_folders redis_get_folder_ids key_of
    redis_get_folders-lines =
        rw (prints, folders_reply r laws d fs h n)
          (folders_of_ids-lines n (fs.folders n) (t.subfolders n))

    redis_get_files-lines :
        (files : List File) × (redis_get_files r d z ≡ ok files)
        × (file_lines files ≡ lines_of (map (name_of_file fs) (fs.files n)))
    unfolding redis_get_files redis_get_file_ids key_of
    redis_get_files-lines =
        rw (prints, files_reply r laws d fs h n) (files_of_ids-lines (fs.files n) (t.entries n))

  listed_prints : (found : Option ℕ) → format_lu (id_or found minus_one) ≡ decimal (listed found)
  unfolding format_lu
  listed_prints none = refl
  listed_prints (some n) = refl

  -- On a dataset that represents a well-formed file system in which every folder is found by
  -- its own name in its parent and no folder name has a slash, in a current directory that is
  -- the absolute path of a folder, `ls_pretty_print` of a path that is not empty always
  -- returns: the names of the folders and then of the files, a line each, of the folder that
  -- the path leads to, or, where it leads nowhere, of the id 18446744073709551615, as which -1
  -- is printed.
  pub ls_pretty_print-lines_of :
      IsNamed fs
      → (cwd : Bytes) (id : ℕ) → IsCwd fs cwd id
      → (c : ℕ) (s : Bytes)
      → ls_pretty_print r d cwd (c ∷ s)
        ≡ ok (lines_of (names_in fs (listed (resolve_dir fs id (slash_ended (c ∷ s))))))
  unfolding ls_pretty_print get_files get_folders
  ls_pretty_print-lines_of named cwd id at c s =
      let found = resolve_dir fs id (slash_ended (c ∷ s)) in
      let (folders, e, same) =
        redis_get_folders-lines (id_or found minus_one) (listed found) (listed_prints found) in
      let (files, e', same') =
        redis_get_files-lines (id_or found minus_one) (listed found) (listed_prints found) in
      rw
        (
          get_folder_id_from_path-resolve_dir r laws d fs h t named cwd id at init_parser_state c s,
          e,
          e',
          same,
          same',
        )
        (ap ok (
          sym (
            lines_of-append (map (name_of_folder fs) (fs.folders (listed found)))
              (map (name_of_file fs) (fs.files (listed found))))))
