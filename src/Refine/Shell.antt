-- ===== src/Refine/Shell.antt =====
-- tests/terminalTest.cc at work: what its commands that make nothing print and leave.
use redis_virtual_file_syste.Common.{
  Option, none, some, ℕ, ◌≤◌, ◌≡◌, ◌≢◌, refl, ap, List, [], ◌∷◌, ◌++◌, Bytes, Bool, true, false,
  All, ◌==◌, Bool-cases, inl, inr, Outcome, ok, codes, if◌then◌else◌,
}
use redis_virtual_file_syste.Redis.{Redis, IsRedis}
use redis_virtual_file_syste.PathParser.State.{ParserState}
use redis_virtual_file_syste.Wrapper.Commands.{ls_pretty_print}
use redis_virtual_file_syste.Wrapper.Items.{DirItemInfo}
use redis_virtual_file_syste.Wrapper.Unwritten.{mv}
use redis_virtual_file_syste.Terminal.Words.{words, nonempty, fields}
use redis_virtual_file_syste.Terminal.Command.{
  Command, command_cp, command_pwd, command_cd, command_ls, command_mv, command_mkdir,
  command_mkfile, command_stat, command_invalid, run_command, handle_cp, handle_ls, handle_cd,
  handle_mv, handle_stat, newline,
}
use redis_virtual_file_syste.Spec.{Fs}
use redis_virtual_file_syste.Spec.Path.{PathOf, root}
use redis_virtual_file_syste.Spec.Command.{folder_at, IsCwd, start_of, slash_ended, resolve_dir-cwd}
use redis_virtual_file_syste.Refine.Said.{said, said_of_cd}
use redis_virtual_file_syste.Refine.Listing.{names_in}
use redis_virtual_file_syste.Spec.Lookup.{resolve_dir}
use redis_virtual_file_syste.Refine.Session.{IsSession}
use redis_virtual_file_syste.Refine.Commands.{CdResult, cd_lem}
use redis_virtual_file_syste.Refine.Lines.{lines_of, listed, ls_pretty_print-lines_of}
use redis_virtual_file_syste.Refine.Stat.{stat-found_at}

-- A command that makes nothing.
abbrev pub is_quiet : Command → Bool
is_quiet command_mkdir = false
is_quiet command_mkfile = false
is_quiet _ = true

abbrev pub IsWord : Bytes → Type 0
IsWord word = word ≢ []

nonempty-IsWord : (texts : List Bytes) → All IsWord (nonempty texts)
nonempty-IsWord [] = tt
nonempty-IsWord ([] ∷ texts) = nonempty-IsWord texts
nonempty-IsWord ((c ∷ s) ∷ texts) = ((λ e. cc), nonempty-IsWord texts)

pub words-IsWord : (line : Bytes) → All IsWord (words line)
words-IsWord line = nonempty-IsWord (fields line)

start_path :
    (fs : Fs) (cwd : Bytes) (id : ℕ)
    → IsCwd fs cwd id
    → (path : Bytes) → (names : List Bytes) × PathOf fs (start_of id path) names
start_path fs cwd id (names, p, e) [] = (names, p)
start_path fs cwd id (names, p, e) (c ∷ s) = elim (Bool-cases (c == b'/')) [
  | inl slash ↦ ([], rw slash (root refl))
  | inr other ↦ (names, rw other p)
]

cwd-IsWord : (fs : Fs) (cwd : Bytes) (id : ℕ) → IsCwd fs cwd id → IsWord cwd
cwd-IsWord fs cwd id ([], p, e) empty = cc
cwd-IsWord fs cwd id (name ∷ names, p, e) empty = cc

-- The folder that a command leaves: `cd` goes where its path leads, if it leads anywhere.
abbrev pub or_here : ℕ → Option ℕ → ℕ
or_here id none = id
or_here id (some next) = next

abbrev pub id_after : Fs → ℕ → Command → List Bytes → ℕ
id_after fs id command_cd [] = id
id_after fs id command_cd (path ∷ args) = or_here id (folder_at fs id path)
id_after fs id _ args = id

module _ (r : Redis) (laws : IsRedis r) (d : r.Db) (fs : Fs) (fuel : ℕ) (enough : fs.next ≤ fuel)
    (state : ParserState) (junk : DirItemInfo) where
  -- What a command prints, by the current directory that it leaves, and what it leaves: the same
  -- dataset, and a session in the folder `next`.
  abbrev pub GoesTo : Outcome (Bytes × Bytes × r.Db) → (Bytes → Bytes) → ℕ → Type 0
  GoesTo outcome text next =
      (cwd : Bytes) × (outcome ≡ ok (text cwd, cwd, d)) × IsSession r laws d cwd fs next

  module _ (cwd : Bytes) (id : ℕ) (session : IsSession r laws d cwd fs id) where
    cd_at :
        (target : Option ℕ) (answer : Bool) (cwd' : Bytes)
        → CdResult fs cwd target answer cwd'
        → IsCwd fs cwd' (or_here id target)
    cd_at none answer cwd' (_, same) = rw same session.at
    cd_at (some next) answer cwd' (_, there) = there

    cd_text :
        (target : Option ℕ) (answer : Bool) (cwd' : Bytes)
        → CdResult fs cwd target answer cwd'
        → (if answer then cwd' ++ newline else codes "invalid cd" ++ newline)
          ≡ said_of_cd target cwd'
    cd_text none answer cwd' (denied, same) = rw denied refl
    cd_text (some next) answer cwd' (granted, there) = rw granted refl

    handle_cd-GoesTo :
        (args : List Bytes)
        → All IsWord args
        → GoesTo
            (handle_cd r fuel state junk d cwd args)
            (said fs junk id command_cd args)
            (id_after fs id command_cd args)
    unfolding handle_cd
    handle_cd-GoesTo [] all = (cwd, refl, session)
    handle_cd-GoesTo ([] ∷ args) (word, all) = absurd (word refl)
    handle_cd-GoesTo ((c ∷ s) ∷ args) (word, all) =
        let (names, p) = start_path fs cwd id session.at (c ∷ s) in
        let (answer, cwd', e, result) =
          cd_lem r laws d fs session.keeps.0 session.keeps.1 session.named cwd id session.at fuel
            enough c s names p in
        rw e (
          cwd',
          ap (λ k. ok (k, cwd', d)) (cd_text (folder_at fs id (c ∷ s)) answer cwd' result),
          record {
            keeps = session.keeps;
            named = session.named;
            at = cd_at (folder_at fs id (c ∷ s)) answer cwd' result;
          },
        )

    handle_stat-GoesTo :
        (args : List Bytes)
        → All IsWord args
        → GoesTo (handle_stat r fuel state junk d cwd args) (said fs junk id command_stat args) id
    unfolding handle_stat
    handle_stat-GoesTo [] all = (cwd, refl, session)
    handle_stat-GoesTo ([] ∷ args) (word, all) = absurd (word refl)
    handle_stat-GoesTo ((c ∷ s) ∷ args) (word, all) =
        rw
          (stat-found_at r laws d fs session.keeps.0 session.keeps.1 session.named cwd id session.at
            state c s junk)
          (cwd, refl, session)

    handle_cp-GoesTo :
        (args : List Bytes)
        → GoesTo (handle_cp r fuel state junk d cwd args) (said fs junk id command_cp args) id
    unfolding handle_cp
    handle_cp-GoesTo [] = (cwd, refl, session)
    handle_cp-GoesTo (from ∷ []) = (cwd, refl, session)
    handle_cp-GoesTo (from ∷ to ∷ args) = (cwd, refl, session)

    handle_mv-GoesTo :
        (args : List Bytes)
        → GoesTo (handle_mv r fuel state junk d cwd args) (said fs junk id command_mv args) id
    unfolding handle_mv mv
    handle_mv-GoesTo [] = (cwd, refl, session)
    handle_mv-GoesTo (from ∷ []) = (cwd, refl, session)
    handle_mv-GoesTo (from ∷ to ∷ args) = (cwd, refl, session)

    ls_pretty_print-names_in :
        (path : Bytes)
        → IsWord path
        → ls_pretty_print r d cwd path
          ≡ ok (lines_of (names_in fs (listed (resolve_dir fs id (slash_ended path)))))
    ls_pretty_print-names_in [] word = absurd (word refl)
    ls_pretty_print-names_in (c ∷ s) word =
        ls_pretty_print-lines_of r laws d fs session.keeps.0 session.keeps.1 session.named cwd id
          session.at c s

    handle_ls-GoesTo :
        (args : List Bytes)
        → All IsWord args
        → GoesTo (handle_ls r fuel state junk d cwd args) (said fs junk id command_ls args) id
    unfolding handle_ls
    handle_ls-GoesTo [] all =
        rw
          (
            ls_pretty_print-names_in cwd (cwd-IsWord fs cwd id session.at),
            resolve_dir-cwd fs session.named id cwd id session.at,
          )
          (cwd, refl, session)
    handle_ls-GoesTo (path ∷ args) (word, all) =
        rw (ls_pretty_print-names_in path word) (cwd, refl, session)

    pub run_command-GoesTo :
        (command : Command) (args : List Bytes)
        → is_quiet command ≡ true
        → All IsWord args
        → GoesTo
            (run_command r fuel state junk command d cwd args)
            (said fs junk id command args)
            (id_after fs id command args)
    run_command-GoesTo command_cp args quiet all = handle_cp-GoesTo args
    run_command-GoesTo command_cd args quiet all = handle_cd-GoesTo args all
    run_command-GoesTo command_pwd args quiet all = (cwd, refl, session)
    run_command-GoesTo command_ls args quiet all = handle_ls-GoesTo args all
    run_command-GoesTo command_mkdir args quiet all = cc
    run_command-GoesTo command_mkfile args quiet all = cc
    run_command-GoesTo command_mv args quiet all = handle_mv-GoesTo args
    run_command-GoesTo command_stat args quiet all = handle_stat-GoesTo args all
    run_command-GoesTo command_invalid args quiet all = (cwd, refl, session)
