-- ===== src/Tests/Runs.antt =====
-- Runs of the calls on the server in memory.
use redis_virtual_file_syste.Common.{Bytes, codes, pos, Bool, true, false, Outcome, ok, ◌>>=◌}
use redis_virtual_file_syste.Redis.Memory.{memory, nothing, Dataset}
use redis_virtual_file_syste.PathParser.State.{ParserState}
use redis_virtual_file_syste.Wrapper.Commands.{
  get_initial_context, mkdir, create_file, cd, ls_pretty_print,
}

abbrev junk : ParserState
junk = record {
  is_existing_object = true;
  name_offset = 0;
  name_length = 0;
  is_file_path = false;
  is_dir = false;
  is_valid = false;
  error = pos 0;
  parent_id = pos 0;
  id = pos 0;
}

abbrev root : Bytes
root = codes "/"

start : Dataset
unfolding get_initial_context
start = (get_initial_context memory nothing).1

tree : Outcome Dataset
unfolding mkdir create_file
tree = do
  (_, d₁) ← mkdir memory 10 start root junk (codes "a")
  (_, d₂) ← mkdir memory 10 d₁ root junk (codes "a/bc")
  (_, d₃) ← create_file memory 10 d₂ root junk (codes "/a/f")
  ok d₃

cd_tree : Outcome (Bool × Bytes)
cd_tree = do d ← tree; cd memory 10 d root (codes "a/bc")

cd_prefix : Outcome (Bool × Bytes)
cd_prefix = do d ← tree; cd memory 10 d root (codes "a/b")

ls_tree : Outcome Bytes
ls_tree = do d ← tree; ls_pretty_print memory d root (codes "/a")
