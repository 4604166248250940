-- ===== src/Refine/Walk.antt =====
-- `vfs_findObjectInDir` and `vfs_getDirIdFromPath`, against the abstract walk.
use redis_virtual_file_syste.Common.{
  ℕ, zero, suc, ◌+◌, ◌-◌, ◌≤◌, ◌<◌, ◌≡◌, ◌≢◌, ◌∙◌, refl, ap, List, [], ◌∷◌, ◌++◌, Bytes, ℤ, pos,
  minus_one, none, some, true, false, length, take, leb, ◌==◌, arith, All, length-append, ok,
  Bool-cases, Option-cases, inl, inr,
}
use redis_virtual_file_syste.Redis.{Redis, IsRedis}
use redis_virtual_file_syste.PathParser.State.{ParserState, init_parser_state}
use redis_virtual_file_syste.PathParser.Walk.{
  vfs_find_object_in_dir, dir_id_loop, vfs_get_dir_id_from_path,
}
use redis_virtual_file_syste.Spec.{Fs}
use redis_virtual_file_syste.Spec.Tree.{IsTree, IsSubfolder}
use redis_virtual_file_syste.Spec.Lookup.{
  first_folder, find_folder, find_object, Object, no_object, file_object, folder_object, dir_names,
  walk, resolve_dir, Object-cases,
}
use redis_virtual_file_syste.Refine.Represents.{Represents}
use redis_virtual_file_syste.Refine.Names.{EndsName}
use redis_virtual_file_syste.Refine.Find.{
  id_or, vfs_find_file_name_in_dir-find_file, vfs_find_dir_name_in_dir-find_folder,
}
use redis_virtual_file_syste.Refine.NextName.{drop-name, next_name}

-- The status and the parser's state after a search.
abbrev pub found_state : ParserState → Object → ℤ × ParserState
found_state state no_object = (minus_one, state)
found_state state (file_object id) =
    (pos 0, record state { id = pos id; is_file_path = true; is_dir = false })
found_state state (folder_object id) =
    (pos 0, record state { id = pos id; is_file_path = false; is_dir = true })

suc-sub-one : (n : ℕ) → suc n - 1 ≡ n
suc-sub-one n = omega arith

length-rest :
    (curr name rest : Bytes)
    → curr ≡ name ++ (b'/' ∷ rest)
    → length curr ≡ length name + suc (length rest)
length-rest curr name rest e = ap length e ∙ length-append name (b'/' ∷ rest)

-- A folder that a search finds exists.
module _ (fs : Fs) (t : IsTree fs) where
  first_folder-exists :
      (dir : ℕ) (c : Bytes) (ids : List ℕ) (id : ℕ)
      → All (IsSubfolder fs dir) ids
      → first_folder fs c ids ≡ some id
      → fs.folder id ≢ none
  unfolding first_folder
  first_folder-exists dir c [] id entries e = cc
  first_folder-exists dir c (x ∷ ids) id (entry, entries) e =
      ground (arith, entry.found, first_folder-exists dir c ids id entries)

  find_folder-exists :
      (dir : ℕ) (c : Bytes) (id : ℕ)
      → fs.folder dir ≢ none
      → find_folder fs dir c ≡ some id
      → fs.folder id ≢ none
  unfolding find_folder
  find_folder-exists dir c id exists e = elim (Option-cases (fs.folder dir)) [
    | inl missing ↦ absurd (exists missing)
    | inr (info, found) ↦ ground (
      arith,
      t.parent_exists dir info,
      first_folder-exists dir c (fs.folders dir) id (t.subfolders dir),
    )
  ]

  pub find_object-exists :
      (dir : ℕ) (c : Bytes) (id : ℕ)
      → fs.folder dir ≢ none
      → find_object fs dir c ≡ folder_object id
      → fs.folder id ≢ none
  unfolding find_object
  find_object-exists dir c id exists e = ground (arith, find_folder-exists dir c id)

  pub walk-exists :
      (dir : ℕ) (names : List Bytes) (id : ℕ)
      → fs.folder dir ≢ none
      → walk fs dir names ≡ some id
      → fs.folder id ≢ none
  unfolding walk
  walk-exists dir [] id exists e = ground arith
  walk-exists dir (c ∷ names) id exists e = elim (Object-cases (find_object fs dir c)) [
    | inl missing ↦ cc (rw (missing, walk) at e)
    | inr (inl (file, found)) ↦ cc (rw (found, walk) at e)
    | inr (inr (next, found)) ↦
        walk-exists next names id (find_object-exists dir c next exists found)
          (rw (found, walk) at e)
  ]

  pub resolve_dir-exists :
      (cwd : ℕ) (path : Bytes) (id : ℕ)
      → fs.folder cwd ≢ none
      → resolve_dir fs cwd path ≡ some id
      → fs.folder id ≢ none
  unfolding resolve_dir
  resolve_dir-exists cwd [] id exists e = ground arith
  resolve_dir-exists cwd (c ∷ path) id exists e =
      let root_exists : fs.folder 0 ≢ none = ground (arith, t.root) in
      elim (Bool-cases (c == b'/')) [
        | inl slash ↦ walk-exists 0 (dir_names path) id root_exists (rw slash at e)
        | inr plain ↦ walk-exists cwd (dir_names (c ∷ path)) id exists (rw plain at e)
      ]

module _ (r : Redis) (laws : IsRedis r) (d : r.Db) (fs : Fs) (h : Represents r laws d fs)
    (t : IsTree fs) where
  -- On a dataset that represents a well-formed file system, `vfs_findObjectInDir` in an
  -- existing folder, of a name that the end of the text or a slash follows, returns status 0
  -- and the state with the file of that name, else with the folder, and else status -1 and the
  -- state as it was.
  pub vfs_find_object_in_dir-find_object :
      (state : ParserState) (dir : ℕ) (c rest : Bytes)
      → EndsName rest
      → fs.folder dir ≢ none
      → vfs_find_object_in_dir r d state (pos dir) (c ++ rest) (length c)
        ≡ ok (found_state state (find_object fs dir c))
  unfolding vfs_find_object_in_dir find_object
  vfs_find_object_in_dir-find_object state dir c rest ends exists =
      elim (Option-cases (fs.folder dir)) [
        | inl missing ↦ absurd (exists missing)
        | inr (info, e) ↦ rw (vfs_find_file_name_in_dir-find_file r laws d fs h t c rest ends dir) (
            rw (vfs_find_dir_name_in_dir-find_folder r laws d fs h t c rest ends dir info e)
              (ground arith))
      ]

  -- The loop of `vfs_getDirIdFromPath` walks along the names that a slash ends.
  pub dir_id_loop-walk :
      (fuel : ℕ) (state : ParserState) (dir : ℕ) (curr : Bytes) (remaining : ℕ)
      → remaining < fuel
      → remaining ≤ length curr
      → fs.folder dir ≢ none
      → dir_id_loop r fuel d state (pos dir) curr remaining
        ≡ ok (id_or (walk fs dir (dir_names (take remaining curr))) minus_one)
  unfolding dir_id_loop walk
  dir_id_loop-walk zero state dir curr remaining enough within exists = absurd (omega arith)
  dir_id_loop-walk (suc fuel) state dir curr remaining enough within exists =
      elim (next_name curr remaining within) [
        | inl last ↦ rw (last.scanned, last.no_names) (ground arith)
        | inr (c, rest, next) ↦
            let left : leb remaining (length c) ≡ false = ground (arith, next.within) in
            let room : remaining - (length c + 1) ≤ length rest =
              omega (arith, length-rest curr c rest next.text) in
            rw (next.scanned, next.names, left)
              (rw next.text (
                rw
                  (
                    drop-name c rest,
                    vfs_find_object_in_dir-find_object state dir c (b'/' ∷ rest) refl exists,
                  )
                  (elim (Object-cases (find_object fs dir c)) [
                    | inl e ↦ rw (e, walk) refl
                    | inr (inl (id, e)) ↦ rw (e, walk) refl
                    | inr (inr (id, e)) ↦
                        rw (e, walk)
                          (dir_id_loop-walk fuel _ id rest (remaining - (length c + 1))
                            (omega arith) room (find_object-exists fs t dir c id exists e))
                  ])))
      ]

  -- On a dataset that represents a well-formed file system, `vfs_getDirIdFromPath` of a length
  -- that is not 0 and is within the path, from an existing folder, always returns, and returns
  -- the folder that the names in front of the last slash lead to, from the root if the path has
  -- a leading slash, or -1 if one of the names is no folder.
  pub vfs_get_dir_id_from_path-walk :
      (cwd : ℕ) (path : Bytes) (path_length : ℕ)
      → path_length ≤ length path
      → 0 < path_length
      → fs.folder cwd ≢ none
      → vfs_get_dir_id_from_path r d (pos cwd) path path_length
        ≡ ok (id_or (resolve_dir fs cwd (take path_length path)) minus_one)
  unfolding vfs_get_dir_id_from_path resolve_dir
  vfs_get_dir_id_from_path-walk cwd [] path_length within positive exists = absurd (omega arith)
  vfs_get_dir_id_from_path-walk cwd (c ∷ path) zero within positive exists = absurd (omega arith)
  vfs_get_dir_id_from_path-walk cwd (c ∷ path) (suc n) within positive exists =
      let root_exists : fs.folder 0 ≢ none = ground (arith, t.root) in
      elim (Bool-cases (c == b'/')) [
        | inl slash ↦
            rw (slash, suc-sub-one n)
              (dir_id_loop-walk (suc n + 1) init_parser_state 0 path n (omega arith) (omega arith)
                root_exists)
        | inr plain ↦ rw plain (
            dir_id_loop-walk (suc n + 1) init_parser_state cwd (c ∷ path) (suc n) (omega arith)
              within exists)
      ]
