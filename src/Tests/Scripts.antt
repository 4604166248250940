-- ===== src/Tests/Scripts.antt =====
-- The theorem on what the terminal's lines do, at a concrete input.
use redis_virtual_file_syste.Common.{
  ℕ, zero, suc, some, ◌≡◌, refl, List, [], ◌∷◌, ◌++◌, Bytes, codes, ok, arith, bytes_eq,
}
use redis_virtual_file_syste.Redis.Memory.{memory, memory-IsRedis, nothing, Dataset}
use redis_virtual_file_syste.PathParser.State.{init_parser_state}
use redis_virtual_file_syste.PathParser.Scan.{split_behind_slash, last_slash_loop}
use redis_virtual_file_syste.Terminal.Words.{fields}
use redis_virtual_file_syste.Terminal.Names.{is_cd, is_ls, is_mkdir, is_mkfile}
use redis_virtual_file_syste.Terminal.Command.{main_loop, main, remove}
use redis_virtual_file_syste.Spec.{initial, FolderInfo, Fs, add_folder, add_file}
use redis_virtual_file_syste.Spec.Lookup.{
  resolve_dir, find_object, find_file, find_folder, first_folder, last_file, walk, dir_names,
}
use redis_virtual_file_syste.Spec.Path.{PathOf, root, child}
use redis_virtual_file_syste.Spec.Command.{strip_prefix, slash_ended}
use redis_virtual_file_syste.Spec.Fresh.{IsFresh}
use redis_virtual_file_syste.Vfs.Create.{is_virtual_file_system_created}
use redis_virtual_file_syste.Spec.FreshFile.{IsFreshFile}
use redis_virtual_file_syste.Refine.Create.{created_file}
use redis_virtual_file_syste.Refine.Session.{IsSession}
use redis_virtual_file_syste.Refine.Script.{
  Script, finished, then_line, makes_folder, moves, IsPlace, IsLost, makes_file, makes_nothing,
}
use redis_virtual_file_syste.Refine.Script.Runs.{main_loop-Script, main-Script}
use redis_virtual_file_syste.Tests.World.{tree_db, tree_fs, info_a}
use redis_virtual_file_syste.Tests.Calls.{a_b-LeadsTo}
use redis_virtual_file_syste.Tests.Sessions.{root-IsSession, b-IsFresh}
use redis_virtual_file_syste.Tests.Shell.{unset}

abbrev grown_fs : Fs
grown_fs = add_folder tree_fs 1 (codes "b")

abbrev full_fs : Fs
full_fs = add_file grown_fs 3 (created_file (codes "g"))

-- A folder, nothing on a missing path, a file in the folder, a listing, and into the folder.
abbrev growing : List Bytes
growing =
    codes "mkdir a/b"
    ∷ codes "mkdir x/y"
    ∷ codes "mkfile a/b/g"
    ∷ codes "ls a"
    ∷ codes "cd a/b"
    ∷ []

abbrev growing_text : Bytes
growing_text =
    codes "\nCommand> "
    ++ (codes "\nCommand> failed to mkdir\n"
        ++ (codes "\nCommand> " ++ (codes "\nCommand> b\nf\n\n" ++ codes "\nCommand> /a/b/\n")))

b-IsPlace : IsPlace tree_fs 0 (codes "a/b") [] 1
unfolding split_behind_slash last_slash_loop strip_prefix find_object find_file find_folder
    first_folder last_file bytes_eq
b-IsPlace = record { start_names = root refl; leads = a_b-LeadsTo; room = omega arith }

x-IsLost : IsLost grown_fs 0 (codes "x/y") []
unfolding split_behind_slash last_slash_loop strip_prefix find_object find_file find_folder
    first_folder last_file bytes_eq resolve_dir walk dir_names
x-IsLost = record { start_names = root refl; below_root = refl; nowhere = refl }

g-IsPlace : IsPlace grown_fs 0 (codes "a/b/g") [] 3
unfolding split_behind_slash last_slash_loop strip_prefix find_object find_file find_folder
    first_folder last_file bytes_eq resolve_dir walk dir_names
g-IsPlace = record {
  start_names = root refl;
  leads = record { below_root = refl; resolved = refl; named = refl };
  room = omega arith;
}

-- The folder 3 is empty.
no_parent_3 : (id : ℕ) (info : FolderInfo) → full_fs.folder id ≡ some info → info.parent ≡ 3 → ⊥
no_parent_3 zero info e below = ground arith
no_parent_3 (suc zero) info e below = ground arith
no_parent_3 (suc (suc zero)) info e below = ground arith
no_parent_3 (suc (suc (suc zero))) info e below = ground arith
no_parent_3 (suc (suc (suc (suc id)))) info e below = ground arith

g-IsFreshFile : IsFreshFile grown_fs 3 (codes "g")
g-IsFreshFile = record {
  fits = omega arith;
  plain = ((λ e. omega arith), tt);
  apart = λ id info e positive below. absurd (no_parent_3 id info e below);
}

a_b-PathOf : PathOf full_fs 3 (codes "a" ∷ codes "b" ∷ [])
a_b-PathOf =
    child (record { parent = 1; name = codes "b" }) refl (λ e. omega arith)
      (child info_a refl (λ e. omega arith) (root refl) refl) refl

growing-Script : Script unset tree_fs 0 (codes "/") growing growing_text full_fs 3 (codes "/a/b/")
unfolding bytes_eq fields remove split_behind_slash last_slash_loop strip_prefix slash_ended walk
    dir_names find_object find_file find_folder first_folder last_file resolve_dir
growing-Script =
    then_line {word = codes "mkdir"} {args = codes "a/b" ∷ []} {text = []} refl (is_mkdir refl)
      (makes_folder {names = []} b-IsPlace (omega arith) b-IsFresh)
      (then_line {word = codes "mkdir"} {args = codes "x/y" ∷ []} refl (is_mkdir refl)
        (makes_nothing refl x-IsLost refl)
        (then_line {word = codes "mkfile"} {args = codes "a/b/g" ∷ []} {text = []} refl
          (is_mkfile refl) (makes_file {names = []} g-IsPlace g-IsFreshFile)
          (then_line {word = codes "ls"} {args = codes "a" ∷ []} refl (is_ls refl)
            (moves refl refl ([], root refl, refl) refl)
            (then_line {word = codes "cd"} {args = codes "a/b" ∷ []} refl (is_cd refl)
              (moves refl refl (codes "a" ∷ codes "b" ∷ [], a_b-PathOf, refl) refl) finished))))

main_loop-Script_example :
    (d : Dataset) × (main_loop memory 5 init_parser_state unset growing tree_db (codes "/")
      ≡ ok (growing_text, codes "/a/b/", d))
    × IsSession memory memory-IsRedis d (codes "/a/b/") full_fs 3
main_loop-Script_example =
    main_loop-Script memory memory-IsRedis 5 init_parser_state unset tree_db (codes "/")
      (codes "/a/b/") tree_fs full_fs 0 3 growing growing_text root-IsSession growing-Script
      (omega arith)

only_root : (id : ℕ) (info : FolderInfo) → initial.folder id ≡ some info → id ≡ 0
only_root zero info e = refl
only_root (suc id) info e = ground arith

a-IsFresh : IsFresh initial 0 (codes "a")
unfolding bytes_eq find_file last_file
a-IsFresh = record {
  plain = ((λ e. omega arith), tt);
  no_dot = refl;
  no_dots = refl;
  no_file = refl;
  apart = λ id info e positive below. absurd (positive (only_root id info e));
}

a-IsPlace : IsPlace initial 0 (codes "a") [] 0
unfolding split_behind_slash last_slash_loop strip_prefix find_object find_file find_folder
    first_folder last_file bytes_eq resolve_dir walk dir_names
a-IsPlace = record {
  start_names = root refl;
  leads = record { below_root = refl; resolved = refl; named = refl };
  room = omega arith;
}

abbrev first_lines : List Bytes
first_lines = codes "mkdir a" ∷ codes "cd a" ∷ []

a-PathOf : PathOf (add_folder initial 0 (codes "a")) 1 (codes "a" ∷ [])
a-PathOf = child info_a refl (λ e. omega arith) (root refl) refl

abbrev first_text : Bytes
first_text = codes "\nCommand> " ++ codes "\nCommand> /a/\n"

first-Script :
    Script unset initial 0
      (codes "/")
      first_lines
      first_text
      (add_folder initial 0 (codes "a"))
      1
      (codes "/a/")
unfolding bytes_eq fields remove split_behind_slash last_slash_loop strip_prefix slash_ended walk
    dir_names find_object find_file find_folder first_folder last_file
first-Script =
    then_line {word = codes "mkdir"} {args = codes "a" ∷ []} {text = []} refl (is_mkdir refl)
      (makes_folder {names = []} a-IsPlace (omega arith) a-IsFresh)
      (then_line {word = codes "cd"} {args = codes "a" ∷ []} refl (is_cd refl)
        (moves refl refl (codes "a" ∷ [], a-PathOf, refl) refl) finished)

main-Script_example :
    (d : Dataset) × (main memory 2 init_parser_state unset first_lines nothing
      ≡ ok (first_text, codes "/a/", d))
    × IsSession memory memory-IsRedis d (codes "/a/") (add_folder initial 0 (codes "a")) 1
unfolding is_virtual_file_system_created
main-Script_example =
    main-Script memory memory-IsRedis 2 init_parser_state unset nothing
      (add_folder initial 0 (codes "a")) 1 (codes "/a/") first_lines first_text refl first-Script
      (omega arith)
