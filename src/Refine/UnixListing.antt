-- ===== src/Refine/UnixListing.antt =====
-- `vfs_listUnixStyle` of vfs.c: the listing and the bound of its buffer.
use redis_virtual_file_syste.Common.{
  ℕ, ◌≤◌, ◌<◌, ◌≡◌, refl, sym, ap, ◌∙◌, List, [], ◌∷◌, ◌++◌, Bytes, codes, pos, map, All, length,
  length-append, arith, none, some, ltb, Bool-cases, inl, inr, bytes_eq, if◌then◌else◌, Outcome, ok,
  fault, ◌>>=◌,
}
use mathlib.Core.List.{append_assoc, append-nil}
use redis_virtual_file_syste.Libc.Decimal.{long_max, decimal, format_lu}
use redis_virtual_file_syste.Libc.RoundTrip.{strtol-decimal_quote}
use redis_virtual_file_syste.Redis.{Redis, IsRedis, str}
use redis_virtual_file_syste.Keys.{file_info, key_of}
use redis_virtual_file_syste.Vfs.Create.{quoted}
use redis_virtual_file_syste.Vfs.Query.{
  in_buffer, strtol_behind_first, vfs_get_file_size_from_id, max_filename_size,
}
use redis_virtual_file_syste.Vfs.Listing.{
  line_size, unix_line, unix_folders, unix_files, vfs_list_unix_style,
}
use redis_virtual_file_syste.Spec.{Fs, FileInfo}
use redis_virtual_file_syste.Spec.Tree.{IsTree, IsSubfolder, IsFileEntry}
use redis_virtual_file_syste.Refine.Represents.{Represents, file_value}
use redis_virtual_file_syste.Refine.Reads.{
  vfs_get_folder_name_lem, vfs_get_file_name_lem, folders_reply, files_reply, in_buffer_fits,
}
use redis_virtual_file_syste.Refine.Find.{strtol-folder, strtol-file}
use redis_virtual_file_syste.Refine.Listing.{name_of_folder, name_of_file}

abbrev pub size_of_file : Fs → ℕ → ℕ
size_of_file fs id = elim (fs.file id) [ none ↦ 0 | some info ↦ info.size ]

-- A line for each folder, and then one for each file.
abbrev folder_text : Fs → List ℕ → Bytes
folder_text fs [] = []
folder_text fs (id ∷ ids) =
    unix_line (codes "drwxrwxr-x") (pos 1) (name_of_folder fs id) ++ folder_text fs ids

abbrev file_text : Fs → List ℕ → Bytes
file_text fs [] = []
file_text fs (id ∷ ids) =
    unix_line (codes "-rwxrwxr-x") (pos (size_of_file fs id)) (name_of_file fs id)
    ++ file_text fs ids

abbrev pub unix_text : Fs → ℕ → Bytes
unix_text fs dir = folder_text fs (fs.folders dir) ++ file_text fs (fs.files dir)

-- A text is written behind the line, and what follows writes the rest: all of it fits, or some
-- write overruns the buffer.
in_buffer_next :
    (size : ℕ) (line text rest : Bytes) (go_on : Bytes → Outcome Bytes)
    → (length (line ++ text) < size
        → go_on (line ++ text) ≡ in_buffer size ((line ++ text) ++ rest))
    → ◌>>=◌ (in_buffer size (line ++ text)) go_on ≡ in_buffer size (line ++ (text ++ rest))
unfolding in_buffer
in_buffer_next size line text rest go_on follows =
    elim (Bool-cases (ltb (length (line ++ text)) size)) [
      | inl room ↦
          rw room (follows (ground arith) ∙ ap (in_buffer size) (append_assoc line text rest))
      | inr full ↦
          rw (sym (append_assoc line text rest)) (ground (arith, length-append (line ++ text) rest))
    ]

module _ (r : Redis) (laws : IsRedis r) (d : r.Db) (fs : Fs) (h : Represents r laws d fs)
    (t : IsTree fs) where
  vfs_get_file_size_from_id_lem :
      (n : ℕ) (info : FileInfo)
      → fs.file n ≡ some info
      → info.size ≤ long_max
      → vfs_get_file_size_from_id r d (pos n) ≡ ok (pos info.size)
  unfolding vfs_get_file_size_from_id key_of format_lu strtol_behind_first bytes_eq
  vfs_get_file_size_from_id_lem n info found fits =
      let reply : r.hget d (key_of (file_info n)) (codes "size")
          ≡ str (quoted (decimal info.size)) =
        laws.hget-hash d _ (codes "size") _ (h (file_info n) ∙ ap file_value found) in
      rw (reply, vfs_get_file_size_from_id) (ap ok (strtol-decimal_quote info.size fits))

  unix_folders-folder_text :
      (dir : ℕ) (ids : List ℕ) (line : Bytes)
      → All (IsSubfolder fs dir) ids
      → length line < line_size
      → unix_folders r d (map decimal ids) line ≡ in_buffer line_size (line ++ folder_text fs ids)
  unfolding unix_folders
  unix_folders-folder_text dir [] line all room =
      rw (append-nil line) (sym (in_buffer_fits line_size line room))
  unix_folders-folder_text dir (id ∷ ids) line (sub, all) room =
      rw
        (
          strtol-folder r laws d fs h t id sub.info sub.found,
          vfs_get_folder_name_lem r laws d fs h id sub.info sub.found max_filename_size
              sub.name_fits,
        )
        (rw (sub.found, name_of_folder)
          (in_buffer_next line_size line (unix_line (codes "drwxrwxr-x") (pos 1) sub.info.name)
            (folder_text fs ids) _ (λ more. unix_folders-folder_text dir ids _ all more)))

  unix_files-file_text :
      (ids : List ℕ) (line : Bytes)
      → All (IsFileEntry fs) ids
      → All (λ id. size_of_file fs id ≤ long_max) ids
      → length line < line_size
      → unix_files r d (map decimal ids) line ≡ in_buffer line_size (line ++ file_text fs ids)
  unfolding unix_files
  unix_files-file_text [] line all sizes room =
      rw (append-nil line) (sym (in_buffer_fits line_size line room))
  unix_files-file_text (id ∷ ids) line (entry, all) (size, sizes) room =
      rw
        (
          strtol-file r laws d fs h t id entry.info entry.found,
          vfs_get_file_name_lem r laws d fs h id entry.info entry.found max_filename_size
              entry.name_fits,
          vfs_get_file_size_from_id_lem id entry.info entry.found
              (rw (entry.found, size_of_file) at size),
        )
        (rw (entry.found, name_of_file, size_of_file)
          (in_buffer_next line_size line
            (unix_line (codes "-rwxrwxr-x") (pos entry.info.size) entry.info.name)
            (file_text fs ids) _ (λ more. unix_files-file_text ids _ all sizes more)))

  -- On a dataset that represents a well-formed file system, for an id that is not negative and
  -- whose listed files have sizes up to LONG_MAX, `vfs_listUnixStyle` returns a line for each
  -- folder and then for each file, in the order of their lists, if the whole listing and a NUL
  -- fit in 20000 bytes, and else it overruns its buffer.
  pub vfs_list_unix_style-unix_text :
      (dir : ℕ)
      → All (λ id. size_of_file fs id ≤ long_max) (fs.files dir)
      → vfs_list_unix_style r d (pos dir)
        ≡ (if ltb (length (unix_text fs dir)) 20000 then ok (unix_text fs dir) else fault)
  unfolding vfs_list_unix_style key_of format_lu
  vfs_list_unix_style-unix_text dir sizes =
      rw (folders_reply r laws d fs h dir, files_reply r laws d fs h dir)
        (rw (unix_folders-folder_text dir (fs.folders dir) [] (t.subfolders dir) (omega arith)) (
          in_buffer_next line_size [] (folder_text fs (fs.folders dir))
            (file_text fs (fs.files dir)) _
            (λ more. unix_files-file_text (fs.files dir) _ (t.entries dir) sizes more)
          ∙ unfold in_buffer in refl))
