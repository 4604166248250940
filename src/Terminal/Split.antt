-- ===== src/Terminal/Split.antt =====
-- `split` of tests/terminalTest.cc.
use redis_virtual_file_syste.Common.{
  ℕ, zero, suc, ◌+◌, ◌-◌, List, [], ◌∷◌, Bytes, Option, none, some, ◌&&◌, ltb, if◌then◌else◌,
  length, Outcome, ok, unfinished, ◌>>=◌,
}
use redis_virtual_file_syste.Libc.Find.{find, substr}

abbrev pub or_end : Option ℕ → ℕ → ℕ
or_end none end = end
or_end (some pos) end = pos

-- `if (!token.empty()) tokens.push_back(token)`
abbrev pub with_token : Bytes → List Bytes → List Bytes
with_token [] tokens = tokens
with_token (c ∷ token) tokens = (c ∷ token) ∷ tokens

-- The `do` loop, with a unit of fuel for each round: the tokens from `prev` on.
unfoldable pub split_loop : ℕ → Bytes → Bytes → ℕ → Outcome (List Bytes)
split_loop zero str delim prev = unfinished
split_loop (suc fuel) str delim prev =
    let pos = or_end (find str delim prev) (length str) in
    let token = substr str prev (pos - prev) in
    let next = pos + length delim in
    let rest = split_loop fuel str delim next in
    let more = (do tokens ← rest; ok (with_token token tokens)) in
    if ltb pos (length str) && ltb next (length str) then more else ok (with_token token [])

-- A round that another follows moves `prev` up, if there is a delimiter, so the length bounds the
-- rounds.
unfoldable pub split : Bytes → Bytes → Outcome (List Bytes)
unfolding split_loop
split str delim = split_loop (length str + 1) str delim 0
