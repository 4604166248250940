-- ===== src/Terminal/Command.antt =====
-- The commands of tests/terminalTest.cc. What the commands print is part of the result; what the
-- calls print on their own is not.
use redis_virtual_file_syste.Common.{
  ℕ, List, [], ◌∷◌, ◌++◌, Bytes, codes, if◌then◌else◌, bytes_eq, ◌==◌, Outcome, ok, fault, ◌>>=◌,
}
use redis_virtual_file_syste.Redis.{Redis}
use redis_virtual_file_syste.PathParser.State.{ParserState}
use redis_virtual_file_syste.Wrapper.Commands.{
  get_initial_context, ls_pretty_print, mkdir, cd, create_file,
}
use redis_virtual_file_syste.Wrapper.Items.{
  DirItemType, dir_item_file, dir_item_folder, DirItemInfo, stat,
}
use redis_virtual_file_syste.Wrapper.Unwritten.{pwd, mv}
use redis_virtual_file_syste.Terminal.Split.{split}

pub data Command : Type 0 where
  command_cp command_pwd command_cd command_ls command_mv command_mkdir command_mkfile command_stat
        command_invalid :
      Command

unfoldable pub command_to_enum : Bytes → Command
command_to_enum str =
    if bytes_eq str (codes "cp")
    then command_cp
    else if bytes_eq str (codes "cd")
    then command_cd
    else if bytes_eq str (codes "pwd")
    then command_pwd
    else if bytes_eq str (codes "ls")
    then command_ls
    else if bytes_eq str (codes "mv")
    then command_mv
    else if bytes_eq str (codes "mkdir")
    then command_mkdir
    else if bytes_eq str (codes "stat")
    then command_stat
    else if bytes_eq str (codes "mkfile")
    then command_mkfile
    else command_invalid

-- `erase(remove(...))`: the text without a byte.
unfoldable pub remove : ℕ → Bytes → Bytes
remove b [] = []
remove b (c ∷ s) = let rest = remove b s in if c == b then rest else c ∷ rest

abbrev pub newline : Bytes
newline = 10 ∷ []

-- What `stat` prints of an item that it has found.
abbrev pub stat_text : DirItemType → Bytes → Bytes
stat_text dir_item_file name = codes "it's a file: " ++ (name ++ newline)
stat_text dir_item_folder name = codes "it's a folder: " ++ (name ++ newline)
stat_text _ name = codes "it's something else???" ++ newline

module _ (r : Redis) (fuel : ℕ) (state : ParserState) (junk : DirItemInfo) where
  open r use {Db}

  -- The printed text, the current directory and the dataset.
  abbrev pub Handled : Type 0
  Handled = Outcome (Bytes × Bytes × Db)

  unfoldable pub handle_cp : Db → Bytes → List Bytes → Handled
  handle_cp d cwd (from ∷ to ∷ args) =
      ok (codes "copy from: " ++ (from ++ (codes " to: " ++ (to ++ newline))), cwd, d)
  handle_cp d cwd _ = ok (codes "invalid cp!" ++ newline, cwd, d)

  unfoldable pub handle_cd : Db → Bytes → List Bytes → Handled
  handle_cd d cwd [] = ok (codes "invalid cd args" ++ newline, cwd, d)
  handle_cd d cwd (path ∷ args) = do
    (answer, cwd') ← cd r fuel d cwd path
    ok (if answer then pwd cwd' ++ newline else codes "invalid cd" ++ newline, cwd', d)

  unfoldable pub handle_ls : Db → Bytes → List Bytes → Handled
  handle_ls d cwd [] = do text ← ls_pretty_print r d cwd cwd; ok (text ++ newline, cwd, d)
  handle_ls d cwd (path ∷ args) = do
    text ← ls_pretty_print r d cwd path
    ok (text ++ newline, cwd, d)

  unfoldable pub handle_mkdir : Db → Bytes → List Bytes → Handled
  handle_mkdir d cwd [] = ok (codes "invalid mkdir args" ++ newline, cwd, d)
  handle_mkdir d cwd (path ∷ args) = do
    (answer, d') ← mkdir r fuel d cwd state path
    ok (if answer then [] else codes "failed to mkdir" ++ newline, cwd, d')

  unfoldable pub handle_mkfile : Db → Bytes → List Bytes → Handled
  handle_mkfile d cwd [] = ok (codes "invalid mkfile args" ++ newline, cwd, d)
  handle_mkfile d cwd (path ∷ args) = do
    (answer, d') ← create_file r fuel d cwd state path
    ok (if answer then [] else codes "failed to mkfile" ++ newline, cwd, d')

  unfoldable pub handle_mv : Db → Bytes → List Bytes → Handled
  unfolding mv
  handle_mv d cwd (old_path ∷ new_path ∷ args) =
      let moved = mv old_path new_path d in
      ok (if moved.0 then [] else codes "failed to mv" ++ newline, cwd, moved.1)
  handle_mv d cwd _ = ok (codes "invalid mv args" ++ newline, cwd, d)

  unfoldable pub handle_stat : Db → Bytes → List Bytes → Handled
  handle_stat d cwd [] = ok (codes "invalid stat args" ++ newline, cwd, d)
  handle_stat d cwd (path ∷ args) = do
    info ← stat r d cwd junk state path
    ok (
      if info.exists then stat_text info.type info.name else codes "that file doesn't exist",
      cwd,
      d,
    )

  abbrev pub run_command : Command → Db → Bytes → List Bytes → Handled
  run_command command_cp d cwd args = handle_cp d cwd args
  run_command command_cd d cwd args = handle_cd d cwd args
  run_command command_pwd d cwd args = ok (pwd cwd ++ newline, cwd, d)
  run_command command_ls d cwd args = handle_ls d cwd args
  run_command command_mkdir d cwd args = handle_mkdir d cwd args
  run_command command_mkfile d cwd args = handle_mkfile d cwd args
  run_command command_mv d cwd args = handle_mv d cwd args
  run_command command_stat d cwd args = handle_stat d cwd args
  run_command command_invalid d cwd args = ok (codes "invalid command!" ++ newline, cwd, d)

  -- `handleCommand`. The first word of no words is undefined.
  unfoldable pub handle_command : Db → Bytes → List Bytes → Handled
  handle_command d cwd [] = fault
  handle_command d cwd (word ∷ args) = run_command (command_to_enum word) d cwd args

  -- A round of the loop of `main` on the line that is read: the prompt, and the command of the line
  -- without newlines.
  unfoldable pub handle_line : Db → Bytes → Bytes → Handled
  handle_line d cwd line = do
    words ← split (remove 10 line) (codes " ")
    (text, cwd', d') ← handle_command d cwd words
    ok (newline ++ (codes "Command> " ++ text), cwd', d')

  -- The rounds of the loop of `main` over the lines that are read so far.
  unfoldable pub main_loop : List Bytes → Db → Bytes → Handled
  main_loop [] d cwd = ok ([], cwd, d)
  main_loop (line ∷ lines) d cwd = do
    (text, cwd', d') ← handle_line d cwd line
    (more, cwd'', d'') ← main_loop lines d' cwd'
    ok (text ++ more, cwd'', d'')

  -- `main`, as far as the lines that are read take it: its loop has no end.
  unfoldable pub main : List Bytes → Db → Handled
  unfolding main_loop
  main lines d = let (cwd, d') = get_initial_context r d in main_loop lines d' cwd
