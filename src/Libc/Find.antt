-- ===== src/Libc/Find.antt =====
-- `std::string::find` and `substr`, as tests/terminalTest.cc uses them.
use redis_virtual_file_syste.Common.{
  ℕ, ◌+◌, [], ◌∷◌, Bytes, Bool, true, false, ◌&&◌, ◌==◌, if◌then◌else◌, Option, none, some, drop,
  take, length, leb,
}

unfoldable pub starts_with : Bytes → Bytes → Bool
starts_with [] s = true
starts_with (c ∷ p) [] = false
starts_with (c ∷ p) (x ∷ s) = c == x && starts_with p s

-- The first place of `part` in a text that begins at `pos`.
unfoldable pub find_in : Bytes → Bytes → ℕ → Option ℕ
unfolding starts_with
find_in part [] pos = if starts_with part [] then some pos else none
find_in part (c ∷ s) pos =
    let rest = find_in part s (pos + 1) in if starts_with part (c ∷ s) then some pos else rest

-- `s.find(part, prev)`; `none` is npos.
unfoldable pub find : Bytes → Bytes → ℕ → Option ℕ
unfolding find_in
find s part prev = if leb prev (length s) then find_in part (drop prev s) prev else none

-- `s.substr(start, count)` for a start within the text.
abbrev pub substr : Bytes → ℕ → ℕ → Bytes
substr s start count = take count (drop start s)
