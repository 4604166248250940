-- ===== src/Tests/Sessions.antt =====
-- The theorems on sessions at concrete inputs.
use redis_virtual_file_syste.Common.{
  ℕ, ◌≡◌, ◌≢◌, refl, ◌++◌, codes, pos, arith, ok, inl, inr, bytes_eq,
}
use redis_virtual_file_syste.Redis.Memory.{memory, memory-IsRedis, nothing}
use redis_virtual_file_syste.PathParser.State.{init_parser_state}
use redis_virtual_file_syste.PathParser.Walk.{vfs_find_object_in_dir}
use redis_virtual_file_syste.Vfs.Create.{vfs_mkdir, is_virtual_file_system_created}
use redis_virtual_file_syste.Wrapper.Commands.{get_initial_context}
use redis_virtual_file_syste.Spec.{initial}
use redis_virtual_file_syste.Spec.Lookup.{find_file, last_file, folder_object}
use redis_virtual_file_syste.Spec.Fresh.{IsFresh}
use redis_virtual_file_syste.Refine.Walk.{found_state}
use redis_virtual_file_syste.Refine.Session.{
  IsSession, get_initial_context-IsSession, vfs_mkdir-vfs_find_object_in_dir,
}
use redis_virtual_file_syste.Tests.World.{
  tree_db, tree_fs, tree-Keeps, tree-IsNamed, root-IsCwd, a-IsCwd, folder-cases,
}

one_parent : ◌≢◌ {A = ℕ} 0 1
one_parent e = omega arith

pub b-IsFresh : IsFresh tree_fs 1 (codes "b")
unfolding bytes_eq find_file last_file
b-IsFresh = record {
  plain = ((λ e. omega arith), tt);
  no_dot = refl;
  no_dots = refl;
  no_file = refl;
  apart = λ id info e positive below. elim (folder-cases id info e) [
    | inl (z, same) ↦ absurd (positive z)
    | inr (one, same) ↦ absurd (one_parent (rw same at below))
  ];
}

pub root-IsSession : IsSession memory memory-IsRedis tree_db (codes "/") tree_fs 0
root-IsSession = record { keeps = tree-Keeps; named = tree-IsNamed; at = root-IsCwd }

a-IsSession : IsSession memory memory-IsRedis tree_db (codes "/a/") tree_fs 1
a-IsSession = record { keeps = tree-Keeps; named = tree-IsNamed; at = a-IsCwd }

get_initial_context-IsSession_example :
    let (cwd, d') = get_initial_context memory nothing in
    IsSession memory memory-IsRedis d' cwd initial 0
unfolding is_virtual_file_system_created
get_initial_context-IsSession_example =
    get_initial_context-IsSession memory memory-IsRedis nothing refl

vfs_mkdir-vfs_find_object_in_dir_example :
    let (id, d') = vfs_mkdir memory tree_db (pos 1) (codes "b") in
    vfs_find_object_in_dir memory d' init_parser_state (pos 1) (codes "b" ++ codes "/x") 1
    ≡ ok (found_state init_parser_state (folder_object 3))
vfs_mkdir-vfs_find_object_in_dir_example =
    vfs_mkdir-vfs_find_object_in_dir memory memory-IsRedis tree_db tree_fs tree-Keeps 1 (codes "b")
      (omega arith) (λ e. cc) (omega arith) b-IsFresh init_parser_state (codes "/x") refl
