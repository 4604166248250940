-- ===== src/Refine/Delete.antt =====
-- `vfs_deleteObjectWithPath` of vfsPathParser.c.
use redis_virtual_file_syste.Common.{
  ℕ, ◌≡◌, ◌≢◌, refl, ◌∷◌, Bytes, ℤ, pos, minus_one, none, some, false, ◌==◌, Outcome, ok,
  Option-cases, inl, inr,
}
use redis_virtual_file_syste.Redis.{Redis, IsRedis}
use redis_virtual_file_syste.PathParser.State.{ParserState}
use redis_virtual_file_syste.PathParser.Walk.{vfs_delete_object_with_path}
use redis_virtual_file_syste.Vfs.Create.{remove_id_from_file_list, remove_id_from_folder_list}
use redis_virtual_file_syste.Spec.{Fs, unlink_folder, unlink_file}
use redis_virtual_file_syste.Spec.Tree.{IsTree}
use redis_virtual_file_syste.Spec.Lookup.{
  Object, no_object, file_object, folder_object, find_object, resolve_dir, parent_of, Object-cases,
}
use redis_virtual_file_syste.Refine.Represents.{Represents}
use redis_virtual_file_syste.Refine.Keeps.{
  Keeps, remove_id_from_folder_list-Keeps, remove_id_from_file_list-Keeps,
}
use redis_virtual_file_syste.Refine.Find.{id_or}
use redis_virtual_file_syste.Refine.Walk.{resolve_dir-exists, find_object-exists}
use redis_virtual_file_syste.Refine.Parse.{
  fixed_of, dir_text, name_text, LeadsTo, parsed-LeadsTo, parsed-nowhere, split_of_fields,
  vfs_parse_path-parsed,
}

abbrev pub delete_status : Object → ℤ
delete_status no_object = minus_one
delete_status (file_object id) = pos 0
delete_status (folder_object id) = pos 0

-- A file is taken off the folder that it was found in, and a folder off its parent.
abbrev pub deleted : Fs → ℕ → Object → Fs
deleted fs dir no_object = fs
deleted fs dir (file_object id) = unlink_file fs dir id
deleted fs dir (folder_object id) = elim (parent_of fs id) [
  | none ↦ fs
  | some parent ↦ unlink_folder fs parent id
]

module _ (r : Redis) (laws : IsRedis r) (d : r.Db) (fs : Fs) (h : Represents r laws d fs)
    (t : IsTree fs) where
  delete_folder :
      (id : ℕ)
      → fs.folder id ≢ none
      → (d' : r.Db) × (◌≡◌ {A = Outcome (ℤ × r.Db)}
          (ok (pos 0, remove_id_from_folder_list r d (id_or (parent_of fs id) minus_one) (pos id)))
          (ok (pos 0, d')))
        × Keeps r laws d' (deleted fs id (folder_object id))
  delete_folder id exists = elim (Option-cases (fs.folder id)) [
    | inl missing ↦ absurd (exists missing)
    | inr (info, e) ↦
        rw (e, parent_of, deleted, id_or)
          (
            remove_id_from_folder_list r d (pos info.parent) (pos id),
            refl,
            remove_id_from_folder_list-Keeps r laws d fs (h, t) info.parent id,
          )
  ]

  module _ (state : ParserState) (cwd : ℕ) (c : ℕ) (s : Bytes) (exists : fs.folder cwd ≢ none) where
    -- On a dataset that represents a well-formed file system, from an existing folder: if the
    -- path is not the root and a folder on the way is missing, `vfs_deleteObjectWithPath`
    -- leaves the dataset as it is and returns 0, the status of success.
    pub delete_missing_dir :
        (fixed_of (c ∷ s) == 0) ≡ false
        → resolve_dir fs cwd (dir_text (c ∷ s)) ≡ none
        → vfs_delete_object_with_path r d state (c ∷ s) (pos cwd) ≡ ok (pos 0, d)
    unfolding vfs_delete_object_with_path
    delete_missing_dir below nowhere =
        let (existing, no_dir, no_file, _, _) = split_of_fields (c ∷ s) in
        rw
          (
            vfs_parse_path-parsed r laws d fs h t state cwd c s exists,
            parsed-nowhere fs cwd (c ∷ s) below nowhere,
          )
          (rw (existing, no_dir, no_file) refl)

    -- On a dataset that represents a well-formed file system, from an existing folder: if the
    -- path leads to an existing folder and a name follows, `vfs_deleteObjectWithPath` returns 0
    -- and takes a file of that name off the folder's list, or else a folder of that name off
    -- the list of its own parent, and returns -1 and changes nothing the dataset represents if
    -- neither is there; the file system is well-formed again.
    pub delete_object :
        (dir : ℕ)
        → LeadsTo fs cwd (c ∷ s) dir
        → let o = find_object fs dir (name_text (c ∷ s)) in
          (d' : r.Db) × (vfs_delete_object_with_path r d state (c ∷ s) (pos cwd)
            ≡ ok (delete_status o, d'))
          × Keeps r laws d' (deleted fs dir o)
    unfolding vfs_delete_object_with_path
    delete_object dir to =
        rw
          (
            vfs_parse_path-parsed r laws d fs h t state cwd c s exists,
            parsed-LeadsTo fs cwd (c ∷ s) dir to,
          )
          (elim (Object-cases (find_object fs dir (name_text (c ∷ s)))) [
            | inl e ↦ rw e (d, refl, (h, t))
            | inr (inl (id, e)) ↦ rw e (
              remove_id_from_file_list r d (pos dir) (pos id),
              refl,
              remove_id_from_file_list-Keeps r laws d fs (h, t) dir id,
            )
            | inr (inr (id, e)) ↦ rw e (
                delete_folder id (
                  find_object-exists fs t dir (name_text (c ∷ s)) id
                    (resolve_dir-exists fs t cwd (dir_text (c ∷ s)) dir exists to.resolved) e))
          ])
