-- ===== src/PathParser/Walk.antt =====
-- `vfs_findObjectInDir`, `vfs_getDirIdFromPath`, `vfs_parsePath` and `vfs_deleteObjectWithPath` of
-- virtualFileSystem/vfsPathParser.c. A function returns its status with the parser's state; the
-- lines that only print are left out.
use redis_virtual_file_syste.Common.{
  ℕ, zero, suc, ◌+◌, ◌-◌, Bytes, ℤ, pos, minus_one, int_eq, not, ◌&&◌, ◌||◌, length, drop, leb,
  ◌==◌, if◌then◌else◌, Outcome, ok, unfinished, ◌>>=◌, true, false,
}
use redis_virtual_file_syste.Redis.{Redis}
use redis_virtual_file_syste.Vfs.Query.{vfs_get_dir_parent}
use redis_virtual_file_syste.Vfs.Find.{vfs_find_file_name_in_dir, vfs_find_dir_name_in_dir}
use redis_virtual_file_syste.Vfs.Create.{remove_id_from_file_list, remove_id_from_folder_list}
use redis_virtual_file_syste.PathParser.State.{
  ParserState, init_parser_state, root_folder_id, root_parent_id,
}
use redis_virtual_file_syste.PathParser.Scan.{
  get_length_of_next_name, vfs_seperate_path_and_name, byte_at,
}

-- `fixedPathLength` of `vfs_parsePath`: without the last byte if that is a slash.
abbrev pub fixed_length : Bytes → ℕ → ℕ
fixed_length full_path full_path_length =
    if byte_at full_path (full_path_length - 1) == b'/'
    then full_path_length - 1
    else full_path_length

-- `cwd` of `vfs_parsePath`
abbrev pub start_dir : Bytes → ℤ → ℤ
start_dir full_path client_cwd = if byte_at full_path 0 == b'/' then root_folder_id else client_cwd

module _ (r : Redis) where
  open r use {Db}

  -- A file of that name first, then a folder.
  unfoldable pub vfs_find_object_in_dir :
      Db → ParserState → ℤ → Bytes → ℕ → Outcome (ℤ × ParserState)
  vfs_find_object_in_dir d state dir_id name name_length = do
    file_id ← vfs_find_file_name_in_dir r d dir_id name name_length
    if not (int_eq file_id minus_one)
        then ok (pos 0, record state { id = file_id; is_file_path = true; is_dir = false })
        else do
          found_dir ← vfs_find_dir_name_in_dir r d dir_id name name_length
          if not (int_eq found_dir minus_one)
              then ok (pos 0, record state { id = found_dir; is_file_path = false; is_dir = true })
              else ok (minus_one, state)

  -- The loop of `vfs_getDirIdFromPath`: `curr` is the text from `currPtr` on and `remaining` what
  -- the length leaves of it. Each round passes a slash, so the length bounds the rounds.
  unfoldable pub dir_id_loop : ℕ → Db → ParserState → ℤ → Bytes → ℕ → Outcome ℤ
  dir_id_loop zero d state curr_dir curr remaining = unfinished
  dir_id_loop (suc fuel) d state curr_dir curr remaining =
      let n = get_length_of_next_name curr remaining in
      let rest = (do
        (result, state') ← vfs_find_object_in_dir d state curr_dir curr n
        let again = dir_id_loop fuel d state' state'.id (drop (n + 1) curr) (remaining - (n + 1))
        if not (int_eq result (pos 0)) || (int_eq state'.id minus_one || not state'.is_dir)
            then ok minus_one
            else again) in
      if leb remaining n then ok curr_dir else rest

  -- Follows the path up to its last slash. A leading slash starts at the root.
  unfoldable pub vfs_get_dir_id_from_path : Db → ℤ → Bytes → ℕ → Outcome ℤ
  unfolding dir_id_loop
  vfs_get_dir_id_from_path d user_cwd path path_length =
      if byte_at path 0 == b'/'
      then dir_id_loop (path_length + 1) d init_parser_state root_folder_id (drop 1 path)
          (path_length - 1)
      else dir_id_loop (path_length + 1) d init_parser_state user_cwd path path_length

  -- The part of `vfs_parsePath` behind the search for the directory, if the name is not empty.
  unfoldable pub find_last_name : Db → ParserState → ℤ → Bytes → Outcome (ℤ × ParserState)
  find_last_name d state dir_id full_path = do
    (result, state') ←
        vfs_find_object_in_dir d state dir_id (drop state.name_offset full_path) state.name_length
    if not (int_eq result (pos 0))
        then ok (pos 0, record state' { is_existing_object = false; parent_id = dir_id })
        else if state'.is_file_path
        then ok (pos 0, record state' { is_existing_object = true; parent_id = dir_id })
        else do
          parent ← vfs_get_dir_parent r d state'.id
          ok (pos 0, record state' { is_existing_object = true; parent_id = parent })

  -- `vfs_parsePath`; `state` is what the caller's variable held before.
  unfoldable pub vfs_parse_path : Db → ParserState → Bytes → ℕ → ℤ → Outcome (ℤ × ParserState)
  unfolding find_last_name
  vfs_parse_path d state full_path zero client_cwd = ok (minus_one, state)
  vfs_parse_path d state full_path (suc n) client_cwd =
      let cwd = start_dir full_path client_cwd in
      let fixed = fixed_length full_path (suc n) in
      if int_eq cwd root_folder_id && fixed == 0
      then ok (
        pos 0,
        record init_parser_state {
          id = root_folder_id;
          parent_id = root_parent_id;
          is_dir = true;
          is_file_path = false;
        },
      )
      else do
        state' ← vfs_seperate_path_and_name init_parser_state full_path fixed
        dir_id ← vfs_get_dir_id_from_path d cwd full_path fixed
        if int_eq dir_id minus_one
            then ok (minus_one, state')
            else if state'.name_length == 0
            then ok (pos 0, state')
            else find_last_name d state' dir_id full_path

  -- `vfs_deleteObjectWithPath` goes by the state alone, whatever `vfs_parsePath` returns. `state` is
  -- what the uninitialised variable holds.
  unfoldable pub vfs_delete_object_with_path : Db → ParserState → Bytes → ℤ → Outcome (ℤ × Db)
  vfs_delete_object_with_path d state path cwd = do
    (result, found) ← vfs_parse_path d state path (length path) cwd
    if not found.is_existing_object
        then ok (minus_one, d)
        else if found.is_dir
        then ok (pos 0, remove_id_from_folder_list r d found.parent_id found.id)
        else if found.is_file_path
        then ok (pos 0, remove_id_from_file_list r d found.parent_id found.id)
        else ok (pos 0, d)
