-- ===== src/PathParser/Scan.antt =====
-- The scans of virtualFileSystem/vfsPathParser.c over the bytes of a path.
use redis_virtual_file_syste.Common.{
  ℕ, zero, suc, ◌+◌, [], ◌∷◌, Bytes, if◌then◌else◌, ◌==◌, Option, none, some, length, leb, Outcome,
  ok, fault,
}
use redis_virtual_file_syste.PathParser.State.{ParserState}

-- `getLengthOfNextName`: the bytes before the next slash, at most `remaining`. Behind the text's
-- NUL the source would read on; no caller lets it.
unfoldable pub get_length_of_next_name : Bytes → ℕ → ℕ
get_length_of_next_name path zero = 0
get_length_of_next_name [] (suc remaining) = suc remaining
get_length_of_next_name (c ∷ path) (suc remaining) =
    let rest = get_length_of_next_name path remaining in if c == b'/' then 0 else suc rest

-- The byte at an index, 0 behind the end as for the NUL.
abbrev pub byte_at : Bytes → ℕ → ℕ
byte_at [] i = 0
byte_at (c ∷ s) zero = c
byte_at (c ∷ s) (suc i) = byte_at s i

-- The backward loop of `vfs_seperatePathAndName`: `left` is the number of bytes up to and with
-- `currPos`, and `i` the count of rounds. `none` is a pointer in front of the path.
unfoldable pub last_slash_loop : Bytes → ℕ → ℕ → Option (ℕ × ℕ)
last_slash_loop path zero i = none
last_slash_loop path (suc left) i =
    let rest = last_slash_loop path left (i + 1) in
    if byte_at path left == b'/' then some (left, i) else rest

-- The offset and the length that `vfs_seperatePathAndName` sets, by where its loop has stopped.
unfoldable pub split_behind_slash : ParserState → Bytes → ℕ → ParserState
unfolding last_slash_loop
split_behind_slash state full_path full_path_length =
    elim (last_slash_loop full_path full_path_length 0) [
      | none ↦ record state { name_length = full_path_length; name_offset = 0 }
      | some (curr_pos, i) ↦ record state { name_length = i; name_offset = curr_pos + 1 }
    ]

-- `vfs_seperatePathAndName`, which always returns 0: the new state. It reads backward from the byte
-- in front of the length; a first read behind the text's NUL has no defined behaviour.
unfoldable pub vfs_seperate_path_and_name : ParserState → Bytes → ℕ → Outcome ParserState
vfs_seperate_path_and_name state full_path full_path_length =
    if leb full_path_length (length full_path + 1)
    then ok (split_behind_slash state full_path full_path_length)
    else fault
