-- ===== src/PathParser/State.antt =====
-- `vfsPathParserState_t` of virtualFileSystem/vfsPathParser.h and its initial value.
use redis_virtual_file_syste.Common.{ℕ, ℤ, pos, minus_one, Bool, true, false}

pub record ParserState : Type 0 where
  pub is_existing_object : Bool
  pub name_offset : ℕ
  pub name_length : ℕ
  pub is_file_path : Bool
  pub is_dir : Bool
  pub is_valid : Bool
  pub error : ℤ
  pub parent_id : ℤ
  pub id : ℤ

-- `init_vfsPathParserState`, which sets every field.
unfoldable pub init_parser_state : ParserState
init_parser_state = record {
  is_existing_object = true;
  name_offset = 0;
  name_length = 0;
  is_file_path = false;
  is_dir = false;
  is_valid = false;
  error = pos 0;
  parent_id = minus_one;
  id = minus_one;
}

abbrev pub root_folder_id : ℤ
root_folder_id = pos 0

abbrev pub root_parent_id : ℤ
root_parent_id = minus_one
