-- ===== src/Refine/Said.antt =====
-- What the commands of tests/terminalTest.cc print, from the abstract file system.
use redis_virtual_file_syste.Common.{
  ℕ, List, [], ◌∷◌, ◌++◌, Bytes, codes, Option, none, some, if◌then◌else◌,
}
use redis_virtual_file_syste.Wrapper.Items.{DirItemInfo}
use redis_virtual_file_syste.Terminal.Command.{
  Command, command_cp, command_pwd, command_cd, command_ls, command_mv, command_mkdir,
  command_mkfile, command_stat, command_invalid, newline, stat_text,
}
use redis_virtual_file_syste.Spec.{Fs}
use redis_virtual_file_syste.Spec.Lookup.{resolve_dir}
use redis_virtual_file_syste.Spec.Command.{slash_ended, folder_at}
use redis_virtual_file_syste.Refine.Listing.{names_in}
use redis_virtual_file_syste.Refine.Lines.{lines_of, listed}
use redis_virtual_file_syste.Refine.Stat.{found_at, item_of}

-- The answer to `cd`, by the folder that its path leads to: the new current directory.
abbrev pub said_of_cd : Option ℕ → Bytes → Bytes
said_of_cd none cwd' = codes "invalid cd" ++ newline
said_of_cd (some next) cwd' = cwd' ++ newline

abbrev pub said_of_item : DirItemInfo → Bytes
said_of_item info =
    if info.exists then stat_text info.type info.name else codes "that file doesn't exist"

-- The text of a command that makes nothing, from the folder `id`, with the current directory that it
-- leaves.
abbrev pub said : Fs → DirItemInfo → ℕ → Command → List Bytes → Bytes → Bytes
said fs junk id command_cp (from ∷ to ∷ args) cwd' =
    codes "copy from: " ++ (from ++ (codes " to: " ++ (to ++ newline)))
said fs junk id command_cp _ cwd' = codes "invalid cp!" ++ newline
said fs junk id command_cd [] cwd' = codes "invalid cd args" ++ newline
said fs junk id command_cd (path ∷ args) cwd' = said_of_cd (folder_at fs id path) cwd'
said fs junk id command_pwd args cwd' = cwd' ++ newline
said fs junk id command_ls [] cwd' = lines_of (names_in fs id) ++ newline
said fs junk id command_ls (path ∷ args) cwd' =
    lines_of (names_in fs (listed (resolve_dir fs id (slash_ended path)))) ++ newline
said fs junk id command_mv (from ∷ to ∷ args) cwd' = []
said fs junk id command_mv _ cwd' = codes "invalid mv args" ++ newline
said fs junk id command_stat [] cwd' = codes "invalid stat args" ++ newline
said fs junk id command_stat (path ∷ args) cwd' =
    said_of_item (item_of fs junk (found_at fs id path))
said fs junk id command_mkdir [] cwd' = codes "invalid mkdir args" ++ newline
said fs junk id command_mkdir (path ∷ args) cwd' = codes "failed to mkdir" ++ newline
said fs junk id command_mkfile [] cwd' = codes "invalid mkfile args" ++ newline
said fs junk id command_mkfile (path ∷ args) cwd' = codes "failed to mkfile" ++ newline
said fs junk id command_invalid args cwd' = codes "invalid command!" ++ newline
