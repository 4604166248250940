-- ===== src/Refine/Session.antt =====
-- A session of virtualFileSystemWrapper.cc: the dataset and the current directory, from one call to
-- the next.
use redis_virtual_file_syste.Common.{
  Option-cases, inl, inr, ℕ, zero, suc, ◌≤◌, ◌<◌, ◌≡◌, ◌≢◌, refl, ap, ◌∙◌, List, [], ◌∷◌, ◌++◌,
  Bytes, codes, pos, Option, none, some, Bool, true, All, arith, ok, length, drop,
}
use redis_virtual_file_syste.Libc.Decimal.{long_max}
use redis_virtual_file_syste.Redis.{Redis, IsRedis}
use redis_virtual_file_syste.PathParser.State.{ParserState}
use redis_virtual_file_syste.PathParser.Walk.{vfs_find_object_in_dir}
use redis_virtual_file_syste.Vfs.Query.{max_filename_size}
use redis_virtual_file_syste.Vfs.Create.{vfs_mkdir, is_virtual_file_system_created}
use redis_virtual_file_syste.Wrapper.Commands.{create_file, get_initial_context, mkdir, cd}
use redis_virtual_file_syste.Spec.{add_file, Fs, FolderInfo, initial, add_folder}
use redis_virtual_file_syste.Spec.Tree.{
  add_file-IsTree, IsPlain, add_folder-IsTree, existing-lt-next,
}
use redis_virtual_file_syste.Spec.Lookup.{folder_object, find_object, Object-cases}
use redis_virtual_file_syste.Spec.Path.{IsNamed, PathOf, root}
use redis_virtual_file_syste.Spec.Command.{IsCwd, absolute, start_of, folder_at}
use redis_virtual_file_syste.Spec.Fresh.{
  IsFresh, add_folder-IsNamed, IsCwd-add_folder, find_object-new,
}
use redis_virtual_file_syste.Spec.FreshFile.{IsFreshFile, add_file-IsNamed, IsCwd-add_file}
use redis_virtual_file_syste.Refine.Names.{EndsName}
use redis_virtual_file_syste.Refine.Walk.{
  found_state, vfs_find_object_in_dir-find_object, resolve_dir-exists,
}
use redis_virtual_file_syste.Refine.Parse.{LeadsTo, split_of, dir_text, name_text}
use redis_virtual_file_syste.Refine.Context.{cwd-exists}
use redis_virtual_file_syste.Refine.Keeps.{Keeps, vfs_mkdir-Keeps, vfs_build_database-Keeps}
use redis_virtual_file_syste.Refine.Commands.{CdResult, cd_lem}
use redis_virtual_file_syste.Refine.Create.{
  create_file-add_file, created_file, parent_for, mkdir-add_folder,
}

-- The dataset represents the well-formed file system `fs`, whose folders are found by their names,
-- and the current directory is the absolute path of the folder `id`.
pub record IsSession (r : Redis) (laws : IsRedis r) (d : r.Db) (cwd : Bytes) (fs : Fs) (id : ℕ)
    : Type 0 where
  pub keeps : Keeps r laws d fs
  pub named : IsNamed fs
  pub at : IsCwd fs cwd id

only_root :
    (id : ℕ) (info : FolderInfo)
    → initial.folder id ≡ some info
    → (id ≡ 0) × (info.name ≡ codes "root")
only_root zero info e = (refl, ground arith)
only_root (suc n) info e = ground arith

name_of_root-IsPlain : All IsPlain (codes "root")
name_of_root-IsPlain =
    ((λ e. omega arith), ((λ e. omega arith), ((λ e. omega arith), ((λ e. omega arith), tt))))

initial-IsNamed : IsNamed initial
initial-IsNamed = record {
  finds = λ id info e positive. absurd (positive (only_root id info e).0);
  plain = λ id info e. rw ((only_root id info e).1) name_of_root-IsPlain;
}

module _ (r : Redis) (laws : IsRedis r) (d : r.Db) where
  -- From any dataset without the mark of an initialised database, `getInitialContext` leaves a
  -- session on the file system with only a root, whose current directory is the root.
  pub get_initial_context-IsSession :
      is_virtual_file_system_created r d ≡ 0
      → let (cwd, d') = get_initial_context r d in IsSession r laws d' cwd initial 0
  unfolding get_initial_context
  get_initial_context-IsSession new = rw new (record {
    keeps = vfs_build_database-Keeps r laws d;
    named = initial-IsNamed;
    at = ([], root refl, refl);
  })

  module _ (fs : Fs) (k : Keeps r laws d fs) where
    -- On a dataset that represents a well-formed file system, while ids fit a `long`: after
    -- `vfs_mkdir` under an existing folder, of a name that fits the buffers, has no slash, is
    -- not `.` or `..`, is no file's name there and starts with no name of a folder there,
    -- `vfs_findObjectInDir` of that name, with the end of the text or a slash behind it, finds
    -- the new folder.
    pub vfs_mkdir-vfs_find_object_in_dir :
        (parent : ℕ) (name : Bytes)
        → fs.next < long_max
        → fs.folder parent ≢ none
        → length name < max_filename_size
        → IsFresh fs parent name
        → (state : ParserState) (rest : Bytes) → EndsName rest
        → let (id, d') = vfs_mkdir r d (pos parent) name in
          vfs_find_object_in_dir r d' state (pos parent) (name ++ rest) (length name)
          ≡ ok (found_state state (folder_object fs.next))
    vfs_mkdir-vfs_find_object_in_dir parent name room exists fits fresh state rest ends =
        let (_, k') = vfs_mkdir-Keeps r laws d fs k parent name room exists fits in
        vfs_find_object_in_dir-find_object r laws (vfs_mkdir r d (pos parent) name).1
          (add_folder fs parent name) k'.0 k'.1 state parent name rest ends
          (ground (arith, existing-lt-next fs k.1 parent exists))
        ∙ ap (λ o. ok (found_state state o)) (find_object-new fs parent name k.1 fresh)

  module _ (cwd : Bytes) (fs : Fs) (id : ℕ) (session : IsSession r laws d cwd fs id) (fuel : ℕ)
      (enough : fs.next ≤ fuel) (c : ℕ) (s : Bytes) (names : List Bytes)
      (p : PathOf fs (start_of id (c ∷ s)) names) where
    session_after :
        (target : Option ℕ) (answer : Bool) (cwd' : Bytes)
        → CdResult fs cwd target answer cwd'
        → (id' : ℕ) × IsCwd fs cwd' id'
    session_after none answer cwd' (_, same) = (id, rw same session.at)
    session_after (some next) answer cwd' (_, there) = (next, there)

    pub cd-IsSession :
        (answer : Bool) × (cwd' : Bytes) × (id' : ℕ) × (cd r fuel d cwd (c ∷ s) ≡ ok (answer, cwd'))
        × IsSession r laws d cwd' fs id'
    cd-IsSession =
        let (answer, cwd', e, result) =
          cd_lem r laws d fs session.keeps.0 session.keeps.1 session.named cwd id session.at fuel
            enough c s names p in
        let (id', at') = session_after (folder_at fs id (c ∷ s)) answer cwd' result in
        (answer, cwd', id', e, record { keeps = session.keeps; named = session.named; at = at' })

    -- The folder that a new object is put into exists.
    parent_for-exists :
        (dir : ℕ)
        → LeadsTo fs id (absolute names (c ∷ s)) dir
        → fs.folder (parent_for fs dir (find_object fs dir (name_text (absolute names (c ∷ s)))))
          ≢ none
    parent_for-exists dir to =
        let text : Bytes = name_text (absolute names (c ∷ s)) in
        let exists =
          resolve_dir-exists fs session.keeps.1 id (dir_text (absolute names (c ∷ s))) dir
            (cwd-exists r laws d fs session.keeps.0 session.keeps.1 session.named cwd id session.at)
            to.resolved in
        elim (Object-cases (find_object fs dir text)) [
          | inl e ↦ rw e exists
          | inr (inl (n, e)) ↦ rw e exists
          | inr (inr (n, e)) ↦ rw e (elim (Option-cases (fs.folder n)) [
            | inl missing ↦ rw (missing, parent_for) exists
            | inr (info, found) ↦
                rw (found, parent_for) (session.keeps.1.parent_exists n info found)
          ])
        ]

    pub mkdir-IsSession :
        (state : ParserState) (dir : ℕ)
        → LeadsTo fs id (absolute names (c ∷ s)) dir
        → fs.next < long_max
        → let path = absolute names (c ∷ s) in
          let name = drop (split_of path).name_offset path in
          let parent = parent_for fs dir (find_object fs dir (name_text path)) in
          length name < max_filename_size
          → IsFresh fs parent name
          → (d' : r.Db) × (mkdir r fuel d cwd state (c ∷ s) ≡ ok (true, d'))
            × IsSession r laws d' cwd (add_folder fs parent name) id
    mkdir-IsSession state dir to room fits fresh =
        let path = absolute names (c ∷ s) in
        let name = drop (split_of path).name_offset path in
        let parent = parent_for fs dir (find_object fs dir (name_text path)) in
        let (d', e, h) =
          mkdir-add_folder r laws d fs session.keeps.0 session.keeps.1 session.named cwd id
            session.at fuel enough c s names p state dir to room in
        (
          d',
          e,
          record {
            keeps = (
              h,
              add_folder-IsTree fs parent name session.keeps.1 (parent_for-exists dir to) room fits,
            );
            named = add_folder-IsNamed fs parent name session.keeps.1 fresh session.named;
            at = IsCwd-add_folder fs parent name session.keeps.1 cwd id session.at;
          },
        )

    pub create_file-IsSession :
        (state : ParserState) (dir : ℕ)
        → LeadsTo fs id (absolute names (c ∷ s)) dir
        → fs.next < long_max
        → let path = absolute names (c ∷ s) in
          let name = drop (split_of path).name_offset path in
          let parent = parent_for fs dir (find_object fs dir (name_text path)) in
          IsFreshFile fs parent name
          → (d' : r.Db) × (create_file r fuel d cwd state (c ∷ s) ≡ ok (true, d'))
            × IsSession r laws d' cwd (add_file fs parent (created_file name)) id
    create_file-IsSession state dir to room fresh =
        let path = absolute names (c ∷ s) in
        let new = created_file (drop (split_of path).name_offset path) in
        let parent = parent_for fs dir (find_object fs dir (name_text path)) in
        let (d', e, h) =
          create_file-add_file r laws d fs session.keeps.0 session.keeps.1 session.named cwd id
            session.at fuel enough c s names p state dir to room in
        (
          d',
          e,
          record {
            keeps = (h, add_file-IsTree fs parent new session.keeps.1 room fresh.fits fresh.plain);
            named = add_file-IsNamed fs parent new session.keeps.1 fresh session.named;
            at = IsCwd-add_file fs parent new session.keeps.1 cwd id session.at;
          },
        )
