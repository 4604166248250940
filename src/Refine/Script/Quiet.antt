-- ===== src/Refine/Script/Quiet.antt =====
-- A run of the terminal of tests/terminalTest.cc over lines that make nothing.
use redis_virtual_file_syste.Common.{
  ℕ, ◌≤◌, ◌≡◌, ◌≢◌, refl, codes, List, [], ◌∷◌, ◌++◌, Bytes, true, All, ok,
}
use redis_virtual_file_syste.Redis.{Redis, IsRedis}
use redis_virtual_file_syste.PathParser.State.{ParserState}
use redis_virtual_file_syste.Wrapper.Items.{DirItemInfo}
use redis_virtual_file_syste.Terminal.Words.{words, split-words}
use redis_virtual_file_syste.Terminal.Names.{
  Names, is_cp, is_cd, is_pwd, is_ls, is_mv, is_mkdir, is_stat, is_mkfile, is_other, command_named,
  command_to_enum-Names,
}
use redis_virtual_file_syste.Terminal.Command.{
  Command, remove, handle_command, handle_line, main_loop,
}
use redis_virtual_file_syste.Spec.{Fs}
use redis_virtual_file_syste.Refine.Session.{IsSession}
use redis_virtual_file_syste.Refine.Shell.{is_quiet, words-IsWord, run_command-GoesTo}
use redis_virtual_file_syste.Refine.Script.{Does, moves, prompt, Script, finished, then_line}

-- The line has a first word, and it is neither of the two commands that make something.
abbrev pub IsQuiet : Bytes → Type 0
IsQuiet line =
    (word : Bytes) × (args : List Bytes) × (words (remove 10 line) ≡ word ∷ args)
    × (word ≢ codes "mkdir")
    × (word ≢ codes "mkfile")

Names-is_quiet :
    (word : Bytes) (command : Command)
    → word ≢ codes "mkdir"
    → word ≢ codes "mkfile"
    → Names word command
    → is_quiet command ≡ true
Names-is_quiet word command no_dir no_file (is_cp e) = refl
Names-is_quiet word command no_dir no_file (is_cd e) = refl
Names-is_quiet word command no_dir no_file (is_pwd e) = refl
Names-is_quiet word command no_dir no_file (is_ls e) = refl
Names-is_quiet word command no_dir no_file (is_mv e) = refl
Names-is_quiet word command no_dir no_file (is_mkdir e) = absurd (no_dir e)
Names-is_quiet word command no_dir no_file (is_stat e) = refl
Names-is_quiet word command no_dir no_file (is_mkfile e) = absurd (no_file e)
Names-is_quiet word command no_dir no_file (is_other _ _ _ _ _ _ _ _) = refl

module _ (r : Redis) (laws : IsRedis r) (d : r.Db) (fs : Fs) (fuel : ℕ) (enough : fs.next ≤ fuel)
    (state : ParserState) (junk : DirItemInfo) where
  -- What a line of a word, a command and arguments does, and that a round of the loop does it.
  abbrev LineGoesTo : Bytes → ℕ → Bytes → Command → List Bytes → Type 0
  LineGoesTo cwd id line command args =
      (text : Bytes) × (next : ℕ) × (cwd' : Bytes) × (handle_line r fuel state junk d cwd line
        ≡ ok (prompt ++ text, cwd', d))
      × IsSession r laws d cwd' fs next
      × Does junk fs id cwd command args text fs next cwd'

  handle_line-GoesTo :
      (cwd : Bytes) (id : ℕ)
      → IsSession r laws d cwd fs id
      → (line word : Bytes) (args : List Bytes) (command : Command)
      → words (remove 10 line) ≡ word ∷ args
      → Names word command
      → is_quiet command ≡ true
      → LineGoesTo cwd id line command args
  unfolding handle_line handle_command
  handle_line-GoesTo cwd id session line word args command e names quiet =
      let (cwd', e', session') =
        run_command-GoesTo r laws d fs fuel enough state junk cwd id session command args quiet
          (rw e at (words-IsWord (remove 10 line))).1 in
      rw (split-words (remove 10 line), e, command_to_enum-Names word command names, e')
        (_, _, cwd', refl, session', moves quiet refl session'.at refl)

  -- In a session, whose dataset represents a well-formed file system in which every folder is
  -- found by its own name in its parent and no folder name has a slash, and whose current
  -- directory is the absolute path of a folder, and with fuel for as many rounds as there are
  -- ids: the terminal's loop over any lines, each with a first word that is not `mkdir` or
  -- `mkfile`, always comes to its end, whatever the words behind the first are: all these lines
  -- have a meaning on the abstract file system, and the loop prints what the abstract file
  -- system says to them, leaves the dataset as it was, and a session in the folder and with the
  -- current directory that the lines lead to.
  pub main_loop-Script_quiet :
      (lines : List Bytes)
      → All IsQuiet lines
      → (cwd : Bytes) (id : ℕ) → IsSession r laws d cwd fs id
      → (text : Bytes) × (next : ℕ) × (cwd' : Bytes) × (main_loop r fuel state junk lines d cwd
          ≡ ok (text, cwd', d))
        × IsSession r laws d cwd' fs next
        × Script junk fs id cwd lines text fs next cwd'
  unfolding main_loop
  main_loop-Script_quiet [] all cwd id session = ([], id, cwd, refl, session, finished)
  main_loop-Script_quiet (line ∷ lines) ((word, args, e, no_dir, no_file), all) cwd id session =
      let (command, names) = command_named word in
      let (text, next, cwd', returned, session', does) =
        handle_line-GoesTo cwd id session line word args command e names
          (Names-is_quiet word command no_dir no_file names) in
      let (more, next', cwd'', returned', session'', script) =
        main_loop-Script_quiet lines all cwd' next session' in
      (
        (prompt ++ text) ++ more,
        next',
        cwd'',
        rw (returned, returned') refl,
        session'',
        then_line e names does script,
      )
