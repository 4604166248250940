-- ===== src/Refine/Script/Runs.antt =====
-- A run of the terminal of tests/terminalTest.cc does what its lines mean on the abstract file
-- system.
use redis_virtual_file_syste.Common.{
  ℕ, ◌≤◌, ◌<◌, ◌≡◌, refl, ap, sym, ◌∙◌, codes, List, [], ◌∷◌, ◌++◌, Bytes, All, length, arith,
  Outcome, ok, false,
}
use redis_virtual_file_syste.Redis.{Redis, IsRedis}
use redis_virtual_file_syste.PathParser.State.{ParserState}
use redis_virtual_file_syste.Vfs.Query.{max_filename_size}
use redis_virtual_file_syste.Vfs.Create.{is_virtual_file_system_created}
use redis_virtual_file_syste.Wrapper.Commands.{get_initial_context}
use redis_virtual_file_syste.Wrapper.Items.{DirItemInfo}
use redis_virtual_file_syste.Terminal.Words.{words, split-words}
use redis_virtual_file_syste.Terminal.Names.{Names, command_to_enum-Names}
use redis_virtual_file_syste.Terminal.Command.{
  Command, remove, command_mkdir, command_mkfile, run_command, handle_mkdir, handle_mkfile,
  handle_command, handle_line, main_loop, main,
}
use redis_virtual_file_syste.Spec.{Fs, initial, add_folder, add_file}
use redis_virtual_file_syste.Spec.Path.{slashed, PathOf-unique}
use redis_virtual_file_syste.Spec.Command.{IsCwd}
use redis_virtual_file_syste.Spec.Fresh.{IsFresh}
use redis_virtual_file_syste.Spec.FreshFile.{IsFreshFile}
use redis_virtual_file_syste.Refine.Create.{
  created_file, mkdir_missing_dir, create_file_missing_dir,
}
use redis_virtual_file_syste.Refine.Said.{said}
use redis_virtual_file_syste.Refine.Session.{
  IsSession, get_initial_context-IsSession, mkdir-IsSession, create_file-IsSession,
}
use redis_virtual_file_syste.Refine.Shell.{is_quiet, words-IsWord, IsWord, run_command-GoesTo}
use redis_virtual_file_syste.Refine.Script.{
  last_name, IsPlace, home, IsLost, Does, moves, makes_folder, makes_file, makes_nothing,
  misses_path, prompt, Script, finished, then_line, Does-next, Script-next,
}

IsCwd-unique : (fs : Fs) (id : ℕ) (a b : Bytes) → IsCwd fs a id → IsCwd fs b id → a ≡ b
IsCwd-unique fs id a b (names, p, e) (names', p', e') =
    e ∙ ap (λ ns. slashed ns ++ (b'/' ∷ [])) (PathOf-unique fs p p') ∙ sym e'

module _ (r : Redis) (laws : IsRedis r) (fuel : ℕ) (state : ParserState) (junk : DirItemInfo) where
  -- The code returns this text and this current directory, and leaves a session on this file system
  -- and in this folder.
  abbrev pub Ends : Outcome (Bytes × Bytes × r.Db) → Bytes → Fs → ℕ → Bytes → Type 0
  Ends outcome text fs id cwd =
      (d : r.Db) × (outcome ≡ ok (text, cwd, d)) × IsSession r laws d cwd fs id

  module _ (d : r.Db) (cwd : Bytes) (fs : Fs) (id : ℕ) (session : IsSession r laws d cwd fs id)
      (enough : fs.next ≤ fuel) where
    makes_folder-Ends :
        (path : Bytes) (args names : List Bytes) (dir : ℕ)
        → IsWord path
        → IsPlace fs id path names dir
        → length (last_name names path) < max_filename_size
        → IsFresh fs (home fs names path dir) (last_name names path)
        → Ends
            (handle_mkdir r fuel state junk d cwd (path ∷ args))
            []
            (add_folder fs (home fs names path dir) (last_name names path))
            id
            cwd
    unfolding handle_mkdir
    makes_folder-Ends [] args names dir word place fits fresh = absurd (word refl)
    makes_folder-Ends (c ∷ s) args names dir word place fits fresh =
        let (d', e, session') =
          mkdir-IsSession r laws d cwd fs id session fuel enough c s names place.start_names state
            dir place.leads place.room fits fresh in
        rw e (d', refl, session')

    makes_file-Ends :
        (path : Bytes) (args names : List Bytes) (dir : ℕ)
        → IsWord path
        → IsPlace fs id path names dir
        → IsFreshFile fs (home fs names path dir) (last_name names path)
        → Ends
            (handle_mkfile r fuel state junk d cwd (path ∷ args))
            []
            (add_file fs (home fs names path dir) (created_file (last_name names path)))
            id
            cwd
    unfolding handle_mkfile
    makes_file-Ends [] args names dir word place fresh = absurd (word refl)
    makes_file-Ends (c ∷ s) args names dir word place fresh =
        let (d', e, session') =
          create_file-IsSession r laws d cwd fs id session fuel enough c s names place.start_names
            state dir place.leads place.room fresh in
        rw e (d', refl, session')

    mkdir_lost-Ends :
        (path : Bytes) (args names : List Bytes)
        → IsWord path
        → IsLost fs id path names
        → Ends
            (handle_mkdir r fuel state junk d cwd (path ∷ args))
            (said fs junk id command_mkdir (path ∷ args) cwd)
            fs
            id
            cwd
    unfolding handle_mkdir
    mkdir_lost-Ends [] args names word lost = absurd (word refl)
    mkdir_lost-Ends (c ∷ s) args names word lost =
        rw
          (mkdir_missing_dir r laws d fs session.keeps.0 session.keeps.1 session.named cwd id
            session.at fuel enough c s names lost.start_names state lost.below_root lost.nowhere)
          (d, refl, session)

    mkfile_lost-Ends :
        (path : Bytes) (args names : List Bytes)
        → IsWord path
        → IsLost fs id path names
        → Ends
            (handle_mkfile r fuel state junk d cwd (path ∷ args))
            (said fs junk id command_mkfile (path ∷ args) cwd)
            fs
            id
            cwd
    unfolding handle_mkfile
    mkfile_lost-Ends [] args names word lost = absurd (word refl)
    mkfile_lost-Ends (c ∷ s) args names word lost =
        rw
          (create_file_missing_dir r laws d fs session.keeps.0 session.keeps.1 session.named cwd id
            session.at fuel enough c s names lost.start_names state lost.below_root lost.nowhere)
          (d, refl, session)

    lost-Ends :
        (command : Command) (path : Bytes) (args names : List Bytes)
        → is_quiet command ≡ false
        → IsWord path
        → IsLost fs id path names
        → Ends
            (run_command r fuel state junk command d cwd (path ∷ args))
            (said fs junk id command (path ∷ args) cwd)
            fs
            id
            cwd
    lost-Ends command_mkdir path args names made word lost =
        mkdir_lost-Ends path args names word lost
    lost-Ends command_mkfile path args names made word lost =
        mkfile_lost-Ends path args names word lost
    lost-Ends _ path args names made word lost = cc

    no_path-Ends :
        (command : Command)
        → is_quiet command ≡ false
        → Ends
            (run_command r fuel state junk command d cwd [])
            (said fs junk id command [] cwd)
            fs
            id
            cwd
    unfolding handle_mkdir handle_mkfile
    no_path-Ends command_mkdir made = (d, refl, session)
    no_path-Ends command_mkfile made = (d, refl, session)
    no_path-Ends _ made = cc

    Does-Ends :
        (command : Command) (args : List Bytes) (text : Bytes) (fs' : Fs) (id' : ℕ) (cwd' : Bytes)
        → All IsWord args
        → Does junk fs id cwd command args text fs' id' cwd'
        → Ends (run_command r fuel state junk command d cwd args) text fs' id' cwd'
    Does-Ends command args text fs' id' cwd' all (moves quiet e at answer) =
        let (there, returned, session') =
          run_command-GoesTo r laws d fs fuel enough state junk cwd id session command args quiet
            all in
        let same = IsCwd-unique fs id' there cwd' (rw e session'.at) at in
        rw (answer, e, ← same) (d, returned, session')
    Does-Ends command args text fs' id' cwd' all
          (makes_folder {path = path} {args = rest} {names = names} {dir = dir} place fits fresh) =
        makes_folder-Ends path rest names dir all.0 place fits fresh
    Does-Ends command args text fs' id' cwd' all
          (makes_file {path = path} {args = rest} {names = names} {dir = dir} place fresh) =
        makes_file-Ends path rest names dir all.0 place fresh
    Does-Ends command args text fs' id' cwd' all
          (makes_nothing {path = path} {args = rest} {names = names} made lost answer) =
        rw answer (lost-Ends command path rest names made all.0 lost)
    Does-Ends command args text fs' id' cwd' all (misses_path made answer) =
        rw answer (no_path-Ends command made)

    handle_line-Ends :
        (line word : Bytes) (command : Command) (args : List Bytes) (text : Bytes) (fs' : Fs)
        (id' : ℕ) (cwd' : Bytes)
        → words (remove 10 line) ≡ word ∷ args
        → Names word command
        → Does junk fs id cwd command args text fs' id' cwd'
        → Ends (handle_line r fuel state junk d cwd line) (prompt ++ text) fs' id' cwd'
    unfolding handle_line handle_command
    handle_line-Ends line word command args text fs' id' cwd' e names does =
        let (d', e', session') =
          Does-Ends command args text fs' id' cwd' (rw e at (words-IsWord (remove 10 line))).1
            does in
        rw (split-words (remove 10 line), e, command_to_enum-Names word command names, e')
          (d', refl, session')

  -- In a session, whose dataset represents a well-formed file system in which every folder is
  -- found by its own name in its parent and no folder name has a slash, and whose current
  -- directory is the absolute path of a folder, the terminal's loop over lines that have a
  -- meaning on the abstract file system always returns: it prints the prompt for each line and
  -- what the abstract file system says to its command, and leaves a session on the file system,
  -- in the folder and with the current directory that the lines lead to, one behind the other,
  -- with fuel for as many rounds as there are ids at the end. The meaning of `cd` is to go
  -- where its path leads, if it leads anywhere. That of `mkdir` and `mkfile`, while ids fit a
  -- `long`, of a path that leads to a folder is to add the folder or file to it, or to the
  -- parent of a folder that the last name finds there; the new name fits the buffers and has no
  -- slash, a folder's is not `.` or `..`, is no file's name where it goes and starts with no
  -- folder's, and a file's is no folder's name there. The meaning of `mkdir` and `mkfile` of a
  -- path on which a folder is missing, or of no path, and that of every other command, is to
  -- change nothing.
  pub main_loop-Script :
      (d : r.Db) (cwd cwd' : Bytes) (fs fs' : Fs) (id id' : ℕ) (lines : List Bytes) (text : Bytes)
      → IsSession r laws d cwd fs id
      → Script junk fs id cwd lines text fs' id' cwd'
      → fs'.next ≤ fuel
      → Ends (main_loop r fuel state junk lines d cwd) text fs' id' cwd'
  unfolding main_loop
  main_loop-Script d cwd cwd' fs fs' id id' lines text session finished enough = (d, refl, session)
  main_loop-Script d cwd cwd'' fs fs'' id id'' all_lines all_text session
        (then_line {fs' = fs'} {id' = id'} {cwd' = cwd'} {line = line} {word = word}
          {command = command} {args = args} {lines = lines} {text = text} {more = more} e names does
          script)
        enough =
      let next = Script-next junk fs' fs'' id' id'' cwd' cwd'' more lines script in
      let (d', returned, session') =
        handle_line-Ends d cwd fs id session
          (omega
            (arith, Does-next junk fs fs' id id' cwd cwd' text command args does, next, enough))
          line word command args text fs' id' cwd' e names does in
      let (d'', returned', session'') =
        main_loop-Script d' cwd' cwd'' fs' fs'' id' id'' lines more session' script enough in
      (d'', rw (returned, returned') refl, session'')

  -- From any dataset without the mark of an initialised database, the terminal's `main` over
  -- lines that have a meaning on the abstract file system, starting from only a root, returns
  -- from all of them, prints what the abstract file system says to them, and leaves a session
  -- on the file system, in the folder and with the current directory that the lines lead to,
  -- with fuel for as many rounds as there are ids at the end.
  pub main-Script :
      (d : r.Db) (fs : Fs) (id : ℕ) (cwd : Bytes) (lines : List Bytes) (text : Bytes)
      → is_virtual_file_system_created r d ≡ 0
      → Script junk initial 0 (codes "/") lines text fs id cwd
      → fs.next ≤ fuel
      → Ends (main r fuel state junk lines d) text fs id cwd
  unfolding main get_initial_context
  main-Script d fs id cwd lines text new script enough =
      let (cwd₀, d') = get_initial_context r d in
      main_loop-Script d' cwd₀ cwd initial fs 0 id lines text
        (get_initial_context-IsSession r laws d new) script enough
