-- ===== src/PathParser/Debug.antt =====
-- `vfs_debug_printParserState` of virtualFileSystem/vfsPathParser.c: the text that it prints.
use redis_virtual_file_syste.Common.{[], ◌∷◌, ◌++◌, Bytes, codes, Bool, if◌then◌else◌, ◌≡◌, refl}
use redis_virtual_file_syste.Libc.Decimal.{decimal, format_ld}
use redis_virtual_file_syste.PathParser.State.{ParserState, init_parser_state}

-- `%d` of a flag.
abbrev format_flag : Bool → Bytes
format_flag flag = if flag then codes "1" else codes "0"

-- A line of a label and a value.
abbrev debug_line : Bytes → Bytes → Bytes
debug_line label value = label ++ (value ++ (10 ∷ []))

unfoldable pub vfs_debug_print_parser_state : ParserState → Bytes
vfs_debug_print_parser_state state =
    debug_line (codes "id's of oldpath ")
      (format_ld state.parent_id ++ (codes " - " ++ format_ld state.id))
    ++ (debug_line (codes "id                  ") (format_ld state.id)
        ++ (debug_line (codes "parent Id           ") (format_ld state.parent_id)
            ++ (debug_line (codes "isFile              ") (format_flag state.is_file_path)
                ++ (debug_line (codes "isDir               ") (format_flag state.is_dir)
                    ++ (debug_line (codes "nameLength          ") (decimal state.name_length)
                        ++ debug_line (codes "Existing Object:      ")
                            (format_flag state.is_existing_object))))))

debug_test :
    vfs_debug_print_parser_state init_parser_state
    ≡ codes
        "id's of oldpath -1 - -1\nid                  -1\nparent Id           -1\nisFile              0\nisDir               0\nnameLength          0\nExisting Object:      1\n"
unfolding vfs_debug_print_parser_state init_parser_state decimal format_ld
debug_test = refl
