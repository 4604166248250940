-- ===== src/Terminal/Names.antt =====
-- The words of tests/terminalTest.cc that are commands.
use redis_virtual_file_syste.Common.{
  ◌≡◌, ◌≢◌, ◌⊎◌, refl, Bytes, codes, bytes_eq, bytes_eq_iff, Bool-cases, false, inl, inr,
}
use redis_virtual_file_syste.Terminal.Command.{
  Command, command_to_enum, command_cp, command_pwd, command_cd, command_ls, command_mv,
  command_mkdir, command_mkfile, command_stat, command_invalid,
}

-- The command that a word is; a word that is none of the eight is an invalid command.
pub data Names (word : Bytes) : Command → Type 0 where
  is_cp : word ≡ codes "cp" → Names word command_cp
  is_cd : word ≡ codes "cd" → Names word command_cd
  is_pwd : word ≡ codes "pwd" → Names word command_pwd
  is_ls : word ≡ codes "ls" → Names word command_ls
  is_mv : word ≡ codes "mv" → Names word command_mv
  is_mkdir : word ≡ codes "mkdir" → Names word command_mkdir
  is_stat : word ≡ codes "stat" → Names word command_stat
  is_mkfile : word ≡ codes "mkfile" → Names word command_mkfile
  is_other :
      word ≢ codes "cp"
      → word ≢ codes "cd"
      → word ≢ codes "pwd"
      → word ≢ codes "ls"
      → word ≢ codes "mv"
      → word ≢ codes "mkdir"
      → word ≢ codes "stat"
      → word ≢ codes "mkfile"
      → Names word command_invalid

bytes_eq-ne : (a b : Bytes) → a ≢ b → bytes_eq a b ≡ false
bytes_eq-ne a b differ = elim (Bool-cases (bytes_eq a b)) [
  | inl same ↦ absurd (differ ((bytes_eq_iff a b).0 same))
  | inr other ↦ other
]

pub command_to_enum-Names :
    (word : Bytes) (command : Command) → Names word command → command_to_enum word ≡ command
unfolding command_to_enum bytes_eq
command_to_enum-Names word command_cp (is_cp e) = rw e refl
command_to_enum-Names word command_cd (is_cd e) = rw e refl
command_to_enum-Names word command_pwd (is_pwd e) = rw e refl
command_to_enum-Names word command_ls (is_ls e) = rw e refl
command_to_enum-Names word command_mv (is_mv e) = rw e refl
command_to_enum-Names word command_mkdir (is_mkdir e) = rw e refl
command_to_enum-Names word command_stat (is_stat e) = rw e refl
command_to_enum-Names word command_mkfile (is_mkfile e) = rw e refl
command_to_enum-Names word command_invalid (is_other cp cd pwd ls mv mkdir stat mkfile) =
    rw
      (
        bytes_eq-ne word (codes "cp") cp,
        bytes_eq-ne word (codes "cd") cd,
        bytes_eq-ne word (codes "pwd") pwd,
        bytes_eq-ne word (codes "ls") ls,
        bytes_eq-ne word (codes "mv") mv,
        bytes_eq-ne word (codes "mkdir") mkdir,
        bytes_eq-ne word (codes "stat") stat,
        bytes_eq-ne word (codes "mkfile") mkfile,
      )
      refl

word-cases : (word name : Bytes) → (word ≡ name) ⊎ (word ≢ name)
word-cases word name = elim (Bool-cases (bytes_eq word name)) [
  | inl same ↦ inl ((bytes_eq_iff word name).0 same)
  | inr differ ↦ inr (λ e. cc (differ, (bytes_eq_iff word name).1 e))
]

-- Every word is a command, if only an invalid one.
pub command_named : (word : Bytes) → (command : Command) × Names word command
command_named word = elim (word-cases word (codes "cp")) [
  | inl e ↦ (command_cp, is_cp e)
  | inr cp ↦ elim (word-cases word (codes "cd")) [
    | inl e ↦ (command_cd, is_cd e)
    | inr cd ↦ elim (word-cases word (codes "pwd")) [
      | inl e ↦ (command_pwd, is_pwd e)
      | inr pwd ↦ elim (word-cases word (codes "ls")) [
        | inl e ↦ (command_ls, is_ls e)
        | inr ls ↦ elim (word-cases word (codes "mv")) [
          | inl e ↦ (command_mv, is_mv e)
          | inr mv ↦ elim (word-cases word (codes "mkdir")) [
            | inl e ↦ (command_mkdir, is_mkdir e)
            | inr mkdir ↦ elim (word-cases word (codes "stat")) [
              | inl e ↦ (command_stat, is_stat e)
              | inr stat ↦ elim (word-cases word (codes "mkfile")) [
                | inl e ↦ (command_mkfile, is_mkfile e)
                | inr mkfile ↦ (command_invalid, is_other cp cd pwd ls mv mkdir stat mkfile)
              ]
            ]
          ]
        ]
      ]
    ]
  ]
]
