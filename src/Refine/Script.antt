-- ===== src/Refine/Script.antt =====
-- tests/terminalTest.cc over the abstract file system: what the lines of a user do, as a relation on
-- the file system and the current folder, and that a run of the terminal does it.
pub mod Runs
pub mod Quiet
use redis_virtual_file_syste.Common.{
  ℕ, ◌≤◌, ◌<◌, ◌≡◌, refl, ap, sym, ◌∙◌, codes, List, [], ◌∷◌, ◌++◌, Bytes, true, All, length, drop,
  arith, Outcome, ok, ◌==◌, false, none,
}
use redis_virtual_file_syste.Libc.Decimal.{long_max}
use redis_virtual_file_syste.Redis.{Redis, IsRedis}
use redis_virtual_file_syste.PathParser.State.{ParserState}
use redis_virtual_file_syste.Vfs.Query.{max_filename_size}
use redis_virtual_file_syste.Vfs.Create.{is_virtual_file_system_created}
use redis_virtual_file_syste.Wrapper.Commands.{get_initial_context}
use redis_virtual_file_syste.Wrapper.Items.{DirItemInfo}
use redis_virtual_file_syste.Terminal.Words.{words, split-words}
use redis_virtual_file_syste.Terminal.Names.{Names}
use redis_virtual_file_syste.Terminal.Command.{
  Command, remove, command_mkdir, command_mkfile, run_command, handle_mkdir, handle_mkfile,
  handle_command, handle_line, main_loop, main, newline,
}
use redis_virtual_file_syste.Spec.{Fs, initial, add_folder, add_file}
use redis_virtual_file_syste.Spec.Lookup.{find_object, resolve_dir}
use redis_virtual_file_syste.Spec.Path.{PathOf, slashed, PathOf-unique}
use redis_virtual_file_syste.Spec.Command.{IsCwd, absolute, start_of}
use redis_virtual_file_syste.Spec.Fresh.{IsFresh}
use redis_virtual_file_syste.Spec.FreshFile.{IsFreshFile}
use redis_virtual_file_syste.Refine.Parse.{LeadsTo, split_of, name_text, fixed_of, dir_text}
use redis_virtual_file_syste.Refine.Create.{
  created_file, parent_for, mkdir_missing_dir, create_file_missing_dir,
}
use redis_virtual_file_syste.Refine.Said.{said}
use redis_virtual_file_syste.Refine.Session.{
  IsSession, get_initial_context-IsSession, mkdir-IsSession, create_file-IsSession,
}
use redis_virtual_file_syste.Refine.Shell.{
  is_quiet, id_after, words-IsWord, IsWord, run_command-GoesTo,
}

-- The last name of a path, behind the absolute path that it starts from.
abbrev pub last_name : List Bytes → Bytes → Bytes
last_name names path = let whole = absolute names path in drop (split_of whole).name_offset whole

-- The path leads to a folder, and an id is left.
pub record IsPlace (fs : Fs) (id : ℕ) (path : Bytes) (names : List Bytes) (dir : ℕ) : Type 0 where
  pub start_names : PathOf fs (start_of id path) names
  pub leads : LeadsTo fs id (absolute names path) dir
  pub room : fs.next < long_max

-- The folder that a new object of the path is put into.
abbrev pub home : Fs → List Bytes → Bytes → ℕ → ℕ
home fs names path dir = parent_for fs dir (find_object fs dir (name_text (absolute names path)))

-- The path is not the root's, and a folder on its way is missing.
pub record IsLost (fs : Fs) (id : ℕ) (path : Bytes) (names : List Bytes) : Type 0 where
  pub start_names : PathOf fs (start_of id path) names
  pub below_root : (fixed_of (absolute names path) == 0) ≡ false
  pub nowhere : resolve_dir fs id (dir_text (absolute names path)) ≡ none

-- What a command does in a file system, a current folder and its absolute path, and what it prints.
-- `junk` is what the uninitialised item of `stat` holds.
pub data Does (junk : DirItemInfo) (fs : Fs) (id : ℕ) (cwd : Bytes)
    : Command → List Bytes → Bytes → Fs → ℕ → Bytes → Type 0 where
  moves :
      {command : Command} {args : List Bytes} {text : Bytes} {next : ℕ} {cwd' : Bytes}
      → is_quiet command ≡ true
      → next ≡ id_after fs id command args
      → IsCwd fs cwd' next
      → text ≡ said fs junk id command args cwd'
      → Does junk fs id cwd command args text fs next cwd'
  makes_folder :
      {path : Bytes} {args names : List Bytes} {dir : ℕ}
      → IsPlace fs id path names dir
      → length (last_name names path) < max_filename_size
      → IsFresh fs (home fs names path dir) (last_name names path)
      → Does junk fs id cwd command_mkdir
          (path ∷ args)
          []
          (add_folder fs (home fs names path dir) (last_name names path))
          id
          cwd
  makes_file :
      {path : Bytes} {args names : List Bytes} {dir : ℕ}
      → IsPlace fs id path names dir
      → IsFreshFile fs (home fs names path dir) (last_name names path)
      → Does junk fs id cwd command_mkfile
          (path ∷ args)
          []
          (add_file fs (home fs names path dir) (created_file (last_name names path)))
          id
          cwd
  makes_nothing :
      {command : Command} {path : Bytes} {args names : List Bytes} {text : Bytes}
      → is_quiet command ≡ false
      → IsLost fs id path names
      → text ≡ said fs junk id command (path ∷ args) cwd
      → Does junk fs id cwd command (path ∷ args) text fs id cwd
  misses_path :
      {command : Command} {text : Bytes}
      → is_quiet command ≡ false
      → text ≡ said fs junk id command [] cwd
      → Does junk fs id cwd command [] text fs id cwd

-- The prompt for a command, behind an empty line.
abbrev pub prompt : Bytes
prompt = newline ++ codes "Command> "

-- What lines do, one behind the other, and what is printed meanwhile.
pub data Script (junk : DirItemInfo)
    : Fs → ℕ → Bytes → List Bytes → Bytes → Fs → ℕ → Bytes → Type 0 where
  finished : {fs : Fs} {id : ℕ} {cwd : Bytes} → Script junk fs id cwd [] [] fs id cwd
  then_line :
      {fs fs' fs'' : Fs} {id id' id'' : ℕ} {cwd cwd' cwd'' : Bytes} {line word : Bytes}
      {command : Command} {args lines : List Bytes} {text more : Bytes}
      → words (remove 10 line) ≡ word ∷ args
      → Names word command
      → Does junk fs id cwd command args text fs' id' cwd'
      → Script junk fs' id' cwd' lines more fs'' id'' cwd''
      → Script junk fs id cwd (line ∷ lines) ((prompt ++ text) ++ more) fs'' id'' cwd''

module _ (junk : DirItemInfo) where
  pub Does-next :
      (fs fs' : Fs) (id id' : ℕ) (cwd cwd' text : Bytes) (command : Command) (args : List Bytes)
      → Does junk fs id cwd command args text fs' id' cwd'
      → fs.next ≤ fs'.next
  Does-next fs fs' id id' cwd cwd' text command args (moves quiet e at said) = omega arith
  Does-next fs fs' id id' cwd cwd' text command args (makes_folder place fits fresh) = omega arith
  Does-next fs fs' id id' cwd cwd' text command args (makes_file place fresh) = omega arith
  Does-next fs fs' id id' cwd cwd' text command args (makes_nothing made lost said) = omega arith
  Does-next fs fs' id id' cwd cwd' text command args (misses_path made said) = omega arith

  pub Script-next :
      (fs fs' : Fs) (id id' : ℕ) (cwd cwd' text : Bytes) (lines : List Bytes)
      → Script junk fs id cwd lines text fs' id' cwd'
      → fs.next ≤ fs'.next
  Script-next fs fs' id id' cwd cwd' text lines finished = omega arith
  Script-next fs fs'' id id'' cwd cwd'' all_text lines
        (then_line {fs' = fs'} {id' = id'} {cwd' = cwd'} {command = command} {args = args}
          {lines = rest} {text = text} {more = more} e names does script) =
      omega (
        arith,
        Does-next fs fs' id id' cwd cwd' text command args does,
        Script-next fs' fs'' id' id'' cwd' cwd'' more rest script,
      )
