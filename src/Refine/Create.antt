-- ===== src/Refine/Create.antt =====
-- `mkdir` and `createFile` of virtualFileSystemWrapper.cc, against the abstract file system.
use redis_virtual_file_syste.Common.{
  ℕ, ◌≤◌, ◌<◌, ◌≡◌, ◌≢◌, refl, List, ◌∷◌, Bytes, codes, pos, none, some, true, false, ◌==◌, ok,
  Option-cases, inl, inr, drop,
}
use redis_virtual_file_syste.Libc.Decimal.{long_max}
use redis_virtual_file_syste.Redis.{Redis, IsRedis}
use redis_virtual_file_syste.PathParser.State.{ParserState}
use redis_virtual_file_syste.Wrapper.Commands.{mkdir, create_file}
use redis_virtual_file_syste.Spec.{Fs, FileInfo, add_folder, add_file}
use redis_virtual_file_syste.Spec.Tree.{IsTree}
use redis_virtual_file_syste.Spec.Lookup.{
  resolve_dir, Object, no_object, file_object, folder_object, find_object,
}
use redis_virtual_file_syste.Spec.Path.{PathOf, IsNamed}
use redis_virtual_file_syste.Spec.Command.{IsCwd, start_of, absolute}
use redis_virtual_file_syste.Refine.Represents.{Represents}
use redis_virtual_file_syste.Refine.Writes.{vfs_mkdir-add_folder, vfs_create_file-add_file}
use redis_virtual_file_syste.Refine.Find.{id_or}
use redis_virtual_file_syste.Refine.Walk.{resolve_dir-exists, find_object-exists}
use redis_virtual_file_syste.Refine.Parse.{
  fixed_of, split_of, dir_text, name_text, LeadsTo, placed, parsed-LeadsTo, parsed-nowhere,
}
use redis_virtual_file_syste.Refine.Context.{get_cwd_id_lem, format_to_valid_path_lem, cwd-exists}
use redis_virtual_file_syste.Refine.Commands.{vfs_parse_path-absolute}

-- The file that `createFile` makes under a name.
abbrev pub created_file : Bytes → FileInfo
created_file name = record {
  name = name;
  size = 1;
  google_id = codes "none";
  web_url = codes "https://none.com";
  api_url = codes "http://none";
}

-- The parent that a new object is given, by what the path's name found.
abbrev pub parent_for : Fs → ℕ → Object → ℕ
parent_for fs dir no_object = dir
parent_for fs dir (file_object n) = dir
parent_for fs dir (folder_object n) = elim (fs.folder n) [ none ↦ dir | some info ↦ info.parent ]

module _ (r : Redis) (laws : IsRedis r) (d : r.Db) (fs : Fs) (h : Represents r laws d fs)
    (t : IsTree fs) where
  module _ (named : IsNamed fs) (cwd : Bytes) (id : ℕ) (at : IsCwd fs cwd id) (fuel : ℕ)
      (enough : fs.next ≤ fuel) where
    module _ (c : ℕ) (s : Bytes) (names : List Bytes)
        (p : PathOf fs (start_of id (c ∷ s)) names) where
      pub mkdir_missing_dir :
          (state : ParserState)
          → (fixed_of (absolute names (c ∷ s)) == 0) ≡ false
          → resolve_dir fs id (dir_text (absolute names (c ∷ s))) ≡ none
          → mkdir r fuel d cwd state (c ∷ s) ≡ ok (false, d)
      unfolding mkdir
      mkdir_missing_dir state below nowhere =
          rw
            (
              format_to_valid_path_lem r laws d fs h t named cwd id at fuel c s names enough p,
              get_cwd_id_lem r laws d fs h t named cwd id at,
            )
            (rw
              (
                vfs_parse_path-absolute r laws d fs h t named cwd id at fuel enough c s names p
                    state,
                parsed-nowhere fs id (absolute names (c ∷ s)) below nowhere,
              )
              refl)

      pub create_file_missing_dir :
          (state : ParserState)
          → (fixed_of (absolute names (c ∷ s)) == 0) ≡ false
          → resolve_dir fs id (dir_text (absolute names (c ∷ s))) ≡ none
          → create_file r fuel d cwd state (c ∷ s) ≡ ok (false, d)
      unfolding create_file
      create_file_missing_dir state below nowhere =
          rw
            (
              format_to_valid_path_lem r laws d fs h t named cwd id at fuel c s names enough p,
              get_cwd_id_lem r laws d fs h t named cwd id at,
            )
            (rw
              (
                vfs_parse_path-absolute r laws d fs h t named cwd id at fuel enough c s names p
                    state,
                parsed-nowhere fs id (absolute names (c ∷ s)) below nowhere,
              )
              refl)

      module _ (state : ParserState) (dir : ℕ) (to : LeadsTo fs id (absolute names (c ∷ s)) dir)
          (room : fs.next < long_max) where
        parsed_parent :
            (o : Object)
            → ((next : ℕ) → o ≡ folder_object next → fs.folder next ≢ none)
            → (placed fs (split_of (absolute names (c ∷ s))) dir o).parent_id
              ≡ pos (parent_for fs dir o)
        parsed_parent no_object exists = refl
        parsed_parent (file_object n) exists = refl
        parsed_parent (folder_object n) exists = elim (Option-cases (fs.folder n)) [
          | inl missing ↦ absurd (exists n refl missing)
          | inr (info, e) ↦ rw (e, parent_for, placed, id_or) refl
        ]

        dir-exists : fs.folder dir ≢ none
        dir-exists =
            resolve_dir-exists fs t id (dir_text (absolute names (c ∷ s))) dir
              (cwd-exists r laws d fs h t named cwd id at) to.resolved

        name_offset-placed :
            (o : Object)
            → (placed fs (split_of (absolute names (c ∷ s))) dir o).name_offset
              ≡ (split_of (absolute names (c ∷ s))).name_offset
        name_offset-placed no_object = refl
        name_offset-placed (file_object n) = refl
        name_offset-placed (folder_object n) = refl

        -- On a dataset that represents a well-formed file system in which every folder is found
        -- by its own name in its parent and no folder name has a slash, in a current directory
        -- that is the absolute path of a folder, and with fuel for as many rounds as there are
        -- ids, while ids fit a `long`: if the path leads to an existing folder and a name
        -- follows, `mkdir` answers true and adds exactly one folder, named by the path's last
        -- name with all that follows it in the path, to the folder that the path leads to; but
        -- if a folder is found by that name already, the new one is added to the found folder's
        -- parent.
        pub mkdir-add_folder :
            let path = absolute names (c ∷ s) in
            let o = find_object fs dir (name_text path) in
            (d' : r.Db) × (mkdir r fuel d cwd state (c ∷ s) ≡ ok (true, d'))
            × Represents r laws d'
                (add_folder fs (parent_for fs dir o) (drop (split_of path).name_offset path))
        unfolding mkdir
        mkdir-add_folder =
            let path = absolute names (c ∷ s) in
            let o = find_object fs dir (name_text path) in
            let found =
              parsed_parent o
                (λ next e. find_object-exists fs t dir (name_text path) next (dir-exists) e) in
            let made =
              vfs_mkdir-add_folder r laws d fs h t room (parent_for fs dir o)
                (drop (split_of path).name_offset path) in
            (
              _,
              rw
                  (
                    format_to_valid_path_lem r laws d fs h t named cwd id at fuel c s names enough
                        p,
                    get_cwd_id_lem r laws d fs h t named cwd id at,
                  )
                  (rw
                    (
                      vfs_parse_path-absolute r laws d fs h t named cwd id at fuel enough c s names
                          p state,
                      parsed-LeadsTo fs id path dir to,
                    )
                    (rw (found, name_offset-placed o) refl)),
              made.1,
            )

        -- On a dataset that represents a well-formed file system in which every folder is found
        -- by its own name in its parent and no folder name has a slash, in a current directory
        -- that is the absolute path of a folder, and with fuel for as many rounds as there are
        -- ids, while ids fit a `long`: if the path leads to an existing folder and a name
        -- follows, `createFile` answers true and adds exactly one file, of size 1 and fixed
        -- addresses and named by the path's last name with all that follows it in the path, to
        -- the folder that the path leads to; but if a folder is found by that name already, the
        -- new file is added to the found folder's parent.
        pub create_file-add_file :
            let path = absolute names (c ∷ s) in
            let o = find_object fs dir (name_text path) in
            (d' : r.Db) × (create_file r fuel d cwd state (c ∷ s) ≡ ok (true, d'))
            × Represents r laws d' (
                add_file fs
                  (parent_for fs dir o)
                  (created_file (drop (split_of path).name_offset path)))
        unfolding create_file
        create_file-add_file =
            let path = absolute names (c ∷ s) in
            let o = find_object fs dir (name_text path) in
            let found =
              parsed_parent o
                (λ next e. find_object-exists fs t dir (name_text path) next dir-exists e) in
            let made =
              vfs_create_file-add_file r laws d fs h t room (parent_for fs dir o)
                (created_file (drop (split_of path).name_offset path)) in
            (
              _,
              rw
                  (
                    format_to_valid_path_lem r laws d fs h t named cwd id at fuel c s names enough
                        p,
                    get_cwd_id_lem r laws d fs h t named cwd id at,
                  )
                  (rw
                    (
                      vfs_parse_path-absolute r laws d fs h t named cwd id at fuel enough c s names
                          p state,
                      parsed-LeadsTo fs id path dir to,
                    )
                    (rw (found, name_offset-placed o) refl)),
              made.1,
            )
