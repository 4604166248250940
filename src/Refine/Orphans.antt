-- ===== src/Refine/Orphans.antt =====
-- `mkdir` of virtualFileSystemWrapper.cc on a path without a last name, as the root's.
use redis_virtual_file_syste.Common.{
  ℕ, ◌-◌, ◌≤◌, ◌<◌, ◌≡◌, refl, List, ◌∷◌, Bytes, pos, minus_one, some, true, false, ◌==◌, arith, ok,
  drop, if◌then◌else◌,
}
use redis_virtual_file_syste.Libc.Decimal.{long_max, ulong_mod, format_lu}
use redis_virtual_file_syste.Redis.{Redis, IsRedis}
use redis_virtual_file_syste.PathParser.State.{ParserState, init_parser_state}
use redis_virtual_file_syste.Vfs.Create.{vfs_mkdir, write_folder}
use redis_virtual_file_syste.Wrapper.Commands.{mkdir}
use redis_virtual_file_syste.Spec.{Fs, add_folder}
use redis_virtual_file_syste.Spec.Tree.{IsTree}
use redis_virtual_file_syste.Spec.Lookup.{resolve_dir}
use redis_virtual_file_syste.Spec.Path.{PathOf, IsNamed}
use redis_virtual_file_syste.Spec.Command.{IsCwd, absolute, start_of}
use redis_virtual_file_syste.Refine.Represents.{Represents}
use redis_virtual_file_syste.Refine.Writes.{vfs_mkdir-add_folder}
use redis_virtual_file_syste.Refine.Parse.{
  fixed_of, split_of, dir_text, root_state, parsed, split_of_fields,
}
use redis_virtual_file_syste.Refine.Context.{format_to_valid_path_lem, get_cwd_id_lem}
use redis_virtual_file_syste.Refine.Commands.{vfs_parse_path-absolute}

-- The path is the root's, or leads to a folder and has no name behind its last slash but one at the
-- end.
pub data IsNameless (fs : Fs) (id : ℕ) (path : Bytes) : Type 0 where
  is_root : (fixed_of path == 0) ≡ true → IsNameless fs id path
  ends_empty :
      {dir : ℕ}
      → (fixed_of path == 0) ≡ false
      → resolve_dir fs id (dir_text path) ≡ some dir
      → ((split_of path).name_length == 0) ≡ true
      → IsNameless fs id path

-- As which id -1 is printed.
abbrev pub no_parent : ℕ
no_parent = ulong_mod - 1

-- What is taken for the name.
abbrev pub rest_of : Bytes → Bytes
rest_of path = if fixed_of path == 0 then path else drop (split_of path).name_offset path

parsed-IsNameless :
    (fs : Fs) (id : ℕ) (path : Bytes)
    → IsNameless fs id path
    → (state : ParserState) × (parsed fs id path ≡ (pos 0, state))
      × (state.parent_id ≡ minus_one)
      × (drop state.name_offset path ≡ rest_of path)
unfolding parsed
parsed-IsNameless fs id path (is_root root) =
    rw root (root_state, refl, refl, unfold init_parser_state in refl)
parsed-IsNameless fs id path (ends_empty below found empty) =
    rw below (split_of path, rw (found, empty) refl, (split_of_fields path).4, refl)

vfs_mkdir-minus_one :
    (r : Redis) (d : r.Db) (name : Bytes)
    → vfs_mkdir r d minus_one name ≡ vfs_mkdir r d (pos no_parent) name
unfolding vfs_mkdir write_folder format_lu
vfs_mkdir-minus_one r d name = refl

add_folder_orphan :
    (fs : Fs) (name : Bytes)
    → IsTree fs
    → fs.next < long_max
    → IsTree (add_folder fs no_parent name)
    → ⊥
add_folder_orphan fs name t room t' =
    t'.parent_exists fs.next (record { parent = no_parent; name = name }) (ground arith)
      (ground (arith, t.fresh_folder no_parent))

module _ (r : Redis) (laws : IsRedis r) (d : r.Db) (fs : Fs) (h : Represents r laws d fs)
    (t : IsTree fs) (named : IsNamed fs) (cwd : Bytes) (id : ℕ) (at : IsCwd fs cwd id) (fuel : ℕ)
    (enough : fs.next ≤ fuel) (c : ℕ) (s : Bytes) (names : List Bytes)
    (p : PathOf fs (start_of id (c ∷ s)) names) (state : ParserState) (room : fs.next < long_max)
    (nameless : IsNameless fs id (absolute names (c ∷ s))) where
  -- On a dataset that represents a well-formed file system in which every folder is found by
  -- its own name in its parent and no folder name has a slash, in a current directory that is
  -- the absolute path of a folder, and with fuel for as many rounds as there are ids, while ids
  -- fit a `long`: if the path is the root's, or leads to an existing folder and has no name
  -- behind its last slash but one at the end, `mkdir` answers true and adds a folder, named by
  -- the rest of the path, to the folder 18446744073709551615, as which the parent -1 is printed
  -- and which does not exist, so that the file system is no longer well-formed.
  pub mkdir_nameless :
      (d' : r.Db) × (mkdir r fuel d cwd state (c ∷ s) ≡ ok (true, d'))
      × Represents r laws d' (add_folder fs no_parent (rest_of (absolute names (c ∷ s))))
      × ¬ IsTree (add_folder fs no_parent (rest_of (absolute names (c ∷ s))))
  unfolding mkdir
  mkdir_nameless =
      let path = absolute names (c ∷ s) in
      let (found, e, orphan, rest) = parsed-IsNameless fs id path nameless in
      let made = vfs_mkdir-add_folder r laws d fs h t room no_parent (rest_of path) in
      (
        (vfs_mkdir r d minus_one (rest_of path)).1,
        rw
            (
              format_to_valid_path_lem r laws d fs h t named cwd id at fuel c s names enough p,
              get_cwd_id_lem r laws d fs h t named cwd id at,
            )
            (rw
              (
                vfs_parse_path-absolute r laws d fs h t named cwd id at fuel enough c s names p
                    state,
                e,
              )
              (rw (orphan, rest) refl)),
        rw (vfs_mkdir-minus_one r d (rest_of path)) made.1,
        add_folder_orphan fs (rest_of path) t room,
      )
