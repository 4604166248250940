-- ===== src/Refine/Gone.antt =====
-- What `vfs_deleteObjectWithPath` has deleted, its path no longer leads to; and what a session keeps.
use redis_virtual_file_syste.Common.{
  ℕ, ◌≡◌, ◌≢◌, sym, ap, ◌∙◌, ◌∷◌, Bytes, pos, minus_one, Option, some, none, false, ◌==◌, arith, ok,
  inl, inr, length, ℤ, bytes_eq, codes, Option-cases, Bool-cases,
}
use redis_virtual_file_syste.Redis.{Redis, IsRedis}
use redis_virtual_file_syste.PathParser.State.{ParserState}
use redis_virtual_file_syste.PathParser.Walk.{vfs_parse_path, vfs_delete_object_with_path}
use redis_virtual_file_syste.Spec.{Fs, FolderInfo, unlink_file, unlink_folder}
use redis_virtual_file_syste.Spec.Tree.{IsTree}
use redis_virtual_file_syste.Spec.Lookup.{
  resolve_dir, find_object, find_file, find_folder, Object, no_object, file_object, folder_object,
  Object-cases, parent_of,
}
use redis_virtual_file_syste.Spec.Unlink.{
  find_file-unlinked, find_folder-unlinked, resolve_dir-unlink_file, unlink_file-IsNamed,
  IsCwd-unlink_file,
}
use redis_virtual_file_syste.Refine.Represents.{Represents}
use redis_virtual_file_syste.Refine.Keeps.{Keeps}
use redis_virtual_file_syste.Refine.Walk.{resolve_dir-exists, find_object-exists}
use redis_virtual_file_syste.Refine.Stat.{last_file-exists}
use redis_virtual_file_syste.Refine.Parse.{
  fixed_of, split_of, dir_text, name_text, LeadsTo, parsed, placed, split_of_fields,
  vfs_parse_path-parsed,
}
use redis_virtual_file_syste.Refine.Context.{cwd-exists}
use redis_virtual_file_syste.Refine.Session.{IsSession}
use redis_virtual_file_syste.Refine.Delete.{deleted, delete_object}

abbrev pub object_id : Object → Option ℕ
object_id no_object = none
object_id (file_object n) = some n
object_id (folder_object n) = some n

find_object-file :
    (fs : Fs) (dir : ℕ) (name : Bytes) (n : ℕ)
    → find_object fs dir name ≡ file_object n
    → find_file fs dir name ≡ some n
unfolding find_object
find_object-file fs dir name n e = elim (Option-cases (find_file fs dir name)) [
  | inr (m, file) ↦ ground (arith, rw file at e, file)
  | inl no_file ↦ elim (Option-cases (find_folder fs dir name)) [
    | inl no_folder ↦ cc (rw (no_file, no_folder) at e)
    | inr (m, folder) ↦ cc (rw (no_file, folder) at e)
  ]
]

find_object-folder :
    (fs : Fs) (dir : ℕ) (name : Bytes) (n : ℕ)
    → find_object fs dir name ≡ folder_object n
    → find_folder fs dir name ≡ some n
unfolding find_object
find_object-folder fs dir name n e = elim (Option-cases (find_file fs dir name)) [
  | inr (m, file) ↦ cc (rw file at e)
  | inl no_file ↦ elim (Option-cases (find_folder fs dir name)) [
    | inl no_folder ↦ cc (rw (no_file, no_folder) at e)
    | inr (m, folder) ↦ ground (arith, rw (no_file, folder) at e, folder)
  ]
]

find_object-file_exists :
    (fs : Fs) (dir : ℕ) (name : Bytes) (n : ℕ)
    → find_object fs dir name ≡ file_object n
    → fs.file n ≢ none
unfolding find_file
find_object-file_exists fs dir name n e =
    last_file-exists fs name (fs.files dir) n (find_object-file fs dir name n e)

placed_id :
    (fs : Fs) (state : ParserState) (dir n : ℕ) (o : Object)
    → state.id ≡ minus_one
    → object_id o ≢ some n
    → (placed fs state dir o).id ≢ pos n
placed_id fs state dir n no_object unset other e = cc
placed_id fs state dir n (file_object m) unset other e =
    let same : m ≡ n = cc in other (ap some same)
placed_id fs state dir n (folder_object m) unset other e =
    let same : m ≡ n = cc in other (ap some same)

-- A path below the root that does not find an id in whatever folder it leads to.
parsed_id :
    (fs : Fs) (cwd : ℕ) (path : Bytes) (n : ℕ)
    → (fixed_of path == 0) ≡ false
    → ((dir : ℕ)
        → resolve_dir fs cwd (dir_text path) ≡ some dir
        → object_id (find_object fs dir (name_text path)) ≢ some n)
    → (parsed fs cwd path).1.id ≢ pos n
unfolding parsed
parsed_id fs cwd path n below other =
    let (_, _, _, unset, _) = split_of_fields path in
    elim (Option-cases (resolve_dir fs cwd (dir_text path))) [
      | inl nowhere ↦ rw (below, nowhere) (λ e. cc (sym unset ∙ e))
      | inr (dir, there) ↦ elim (Bool-cases ((split_of path).name_length == 0)) [
        | inl nameless ↦ rw (below, there, nameless) (λ e. cc (sym unset ∙ e))
        | inr named ↦
            rw (below, there, named)
              (placed_id fs (split_of path) dir n (find_object fs dir (name_text path)) unset
                (other dir there))
      ]
    ]

module _ (fs : Fs) (t : IsTree fs) (n : ℕ) where
  -- A file that is off its list.
  unlinked_file_id :
      (dir : ℕ) (name : Bytes)
      → fs.folder dir ≢ none
      → fs.file n ≢ none
      → IsTree (unlink_file fs dir n)
      → object_id (find_object (unlink_file fs dir n) dir name) ≢ some n
  unlinked_file_id dir name exists is_file t' e =
      elim (Object-cases (find_object (unlink_file fs dir n) dir name)) [
        | inl nothing ↦ cc (rw nothing at e)
        | inr (inl (m, file)) ↦
            find_file-unlinked fs dir n name
              (find_object-file (unlink_file fs dir n) dir name m file ∙ rw file at e)
        | inr (inr (m, folder)) ↦
            let is_folder = find_object-exists (unlink_file fs dir n) t' dir name m exists folder in
            elim (Option-cases (fs.file n)) [
              | inl missing ↦ is_file missing
              | inr (info, found) ↦
                  let same : m ≡ n = cc (rw folder at e) in
                  is_folder (ap fs.folder same ∙ t.apart n info found)
            ]
      ]

  -- A folder that is off its list.
  unlinked_folder_id :
      (info : FolderInfo)
      → fs.folder n ≡ some info
      → (dir : ℕ) (name : Bytes) → bytes_eq name (codes ".") ≡ false
      → bytes_eq name (codes "..") ≡ false
      → object_id (find_object (unlink_folder fs info.parent n) dir name) ≢ some n
  unlinked_folder_id info found dir name no_dot no_dots e =
      let fs' = unlink_folder fs info.parent n in
      elim (Object-cases (find_object fs' dir name)) [
        | inl nothing ↦ cc (rw nothing at e)
        | inr (inl (m, file)) ↦
            let is_file = find_object-file_exists fs' dir name m file in
            let same : m ≡ n = cc (rw file at e) in
            elim (Option-cases (fs.file n)) [
              | inl missing ↦ is_file (ap fs.file same ∙ missing)
              | inr (other, there) ↦ cc (sym found ∙ t.apart n other there)
            ]
        | inr (inr (m, folder)) ↦
            find_folder-unlinked fs t n info found dir name no_dot no_dots
              (find_object-folder fs' dir name m folder ∙ rw folder at e)
      ]

module _ (r : Redis) (cwd : ℕ) (path : Bytes) where
  -- The path is parsed again, and does not lead to the object.
  abbrev pub IsGone : r.Db → ParserState → ℕ → Type 0
  IsGone d before n =
      (status : ℤ) × (after : ParserState) × (vfs_parse_path r d before path (length path) (pos cwd)
        ≡ ok (status, after))
      × (after.id ≢ pos n)

  -- The object is deleted, and its path does not lead to it.
  abbrev pub Deletes : r.Db → ParserState → ParserState → ℕ → Type 0
  Deletes d state before n =
      (d' : r.Db) × (vfs_delete_object_with_path r d state path (pos cwd) ≡ ok (pos 0, d'))
      × IsGone d' before n

module _ (r : Redis) (laws : IsRedis r) (d : r.Db) (fs : Fs) (h : Represents r laws d fs)
    (t : IsTree fs) (cwd : ℕ) (c : ℕ) (s : Bytes) (exists : fs.folder cwd ≢ none) (dir : ℕ)
    (to : LeadsTo fs cwd (c ∷ s) dir) where
  parsed-IsGone :
      (d' : r.Db) (fs' : Fs) (before : ParserState) (n : ℕ)
      → Keeps r laws d' fs'
      → fs'.folder cwd ≢ none
      → ((dir' : ℕ)
          → resolve_dir fs' cwd (dir_text (c ∷ s)) ≡ some dir'
          → object_id (find_object fs' dir' (name_text (c ∷ s))) ≢ some n)
      → IsGone r cwd (c ∷ s) d' before n
  parsed-IsGone d' fs' before n kept exists' other = (
    (parsed fs' cwd (c ∷ s)).0,
    (parsed fs' cwd (c ∷ s)).1,
    vfs_parse_path-parsed r laws d' fs' kept.0 kept.1 before cwd c s exists',
    parsed_id fs' cwd (c ∷ s) n to.below_root other,
  )

  delete_file-IsGone :
      (state before : ParserState) (n : ℕ)
      → find_object fs dir (name_text (c ∷ s)) ≡ file_object n
      → Deletes r cwd (c ∷ s) d state before n
  delete_file-IsGone state before n file =
      let path : Bytes = c ∷ s in
      let (d', returned, kept) =
        rw file at (delete_object r laws d fs h t state cwd c s exists dir to) in
      (
        d',
        returned,
        parsed-IsGone d' (unlink_file fs dir n) before n kept exists (λ dir' there.
            let same : dir' ≡ dir =
              cc (
                sym there ∙ resolve_dir-unlink_file fs dir n cwd dir (dir_text path) to.resolved) in
            rw same (
              unlinked_file_id fs t n dir (name_text path)
                (resolve_dir-exists fs t cwd (dir_text path) dir exists to.resolved)
                (find_object-file_exists fs dir (name_text path) n file) kept.1)),
      )

  delete_folder-IsGone :
      (state before : ParserState) (n : ℕ)
      → find_object fs dir (name_text (c ∷ s)) ≡ folder_object n
      → bytes_eq (name_text (c ∷ s)) (codes ".") ≡ false
      → bytes_eq (name_text (c ∷ s)) (codes "..") ≡ false
      → Deletes r cwd (c ∷ s) d state before n
  delete_folder-IsGone state before n folder no_dot no_dots =
      let path : Bytes = c ∷ s in
      let there = resolve_dir-exists fs t cwd (dir_text path) dir exists to.resolved in
      elim (Option-cases (fs.folder n)) [
        | inl missing ↦ absurd (find_object-exists fs t dir (name_text path) n there folder missing)
        | inr (info, found) ↦
            let (d', returned, kept) =
              rw (folder, found, deleted, parent_of) at
                (delete_object r laws d fs h t state cwd c s exists dir to) in
            (
              d',
              returned,
              parsed-IsGone d' (unlink_folder fs info.parent n) before n kept exists (λ dir' there'.
                  unlinked_folder_id fs t n info found dir' (name_text path) no_dot no_dots),
            )
      ]

  -- On a dataset that represents a well-formed file system, from an existing folder: if the
  -- path leads to an existing folder, and a name follows that is not `.` or `..` and finds a
  -- file or a folder there, `vfs_deleteObjectWithPath` returns 0, and after it `vfs_parsePath`
  -- of the same path returns, from any earlier content of the caller's state, a state with
  -- another id than that of the deleted file or folder.
  pub vfs_delete_object_with_path-vfs_parse_path :
      (state before : ParserState) (n : ℕ)
      → object_id (find_object fs dir (name_text (c ∷ s))) ≡ some n
      → bytes_eq (name_text (c ∷ s)) (codes ".") ≡ false
      → bytes_eq (name_text (c ∷ s)) (codes "..") ≡ false
      → Deletes r cwd (c ∷ s) d state before n
  vfs_delete_object_with_path-vfs_parse_path state before n e no_dot no_dots =
      elim (Object-cases (find_object fs dir (name_text (c ∷ s)))) [
        | inl nothing ↦ cc (rw nothing at e)
        | inr (inl (m, file)) ↦
            let same : m ≡ n = cc (rw file at e) in
            delete_file-IsGone state before n (file ∙ ap file_object same)
        | inr (inr (m, folder)) ↦
            let same : m ≡ n = cc (rw folder at e) in
            delete_folder-IsGone state before n (folder ∙ ap folder_object same) no_dot no_dots
      ]

module _ (r : Redis) (laws : IsRedis r) (d : r.Db) (cwd : Bytes) (fs : Fs) (id : ℕ)
    (session : IsSession r laws d cwd fs id) where
  -- In a session, whose dataset represents a well-formed file system in which every folder is
  -- found by its own name in its parent and no folder name has a slash, and whose current
  -- directory is the absolute path of a folder: if a path from that folder leads to an existing
  -- folder, and a name follows that finds a file there, `vfs_deleteObjectWithPath` returns 0,
  -- takes the file off the folder's list, and leaves a session with the same current directory.
  pub delete_file-IsSession :
      (state : ParserState) (c : ℕ) (s : Bytes) (dir n : ℕ)
      → LeadsTo fs id (c ∷ s) dir
      → find_object fs dir (name_text (c ∷ s)) ≡ file_object n
      → (d' : r.Db) × (vfs_delete_object_with_path r d state (c ∷ s) (pos id) ≡ ok (pos 0, d'))
        × IsSession r laws d' cwd (unlink_file fs dir n) id
  delete_file-IsSession state c s dir n to file =
      let exists =
        cwd-exists r laws d fs session.keeps.0 session.keeps.1 session.named cwd id session.at in
      let (d', returned, kept) =
        rw file at
          (delete_object r laws d fs session.keeps.0 session.keeps.1 state id c s exists dir to) in
      (
        d',
        returned,
        record {
          keeps = kept;
          named = unlink_file-IsNamed fs dir n session.named;
          at = IsCwd-unlink_file fs dir n cwd id session.at;
        },
      )
