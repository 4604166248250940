-- ===== src/Posix/Host.antt =====
-- A small host with the calls of `Posix`, for the tests: its state is the last error and the
-- entries that the open directory has left. Every path is there, and a transfer moves all bytes.
use redis_virtual_file_syste.Common.{ℕ, List, [], ◌∷◌, Bytes, ℤ, pos, Option, none, some, take}
use redis_virtual_file_syste.Posix.{Posix, Answer}

pub record HostState : Type 0 where
  pub last_error : ℤ
  pub entries : List Bytes

abbrev done : {A : Type 0} → A → HostState → Answer HostState A
done a w = record { value = pos 0; out = a; world = w }

abbrev next_entry : List Bytes → HostState → Option Bytes × HostState
next_entry [] w = (none, w)
next_entry (name ∷ names) w = (some name, record w { entries = names })

abbrev pub host : Posix
host = record {
  World = HostState;
  StatBuf = ℕ;
  StatVfs = ℕ;
  Times = ℕ;
  path_max = 4096;
  errno = λ w. w.last_error;
  lstat = λ path buf w. done 1 w;
  readlink = λ path buf size w. record { value = pos 1; out = take size path; world = w };
  mknod = λ path mode dev w. done tt w;
  mkdir = λ path mode w. done tt w;
  unlink = λ path w. done tt w;
  rmdir = λ path w. done tt w;
  symlink = λ path text w. done tt w;
  rename = λ path newpath w. done tt w;
  link = λ path newpath w. done tt w;
  chmod = λ path mode w. done tt w;
  chown = λ path uid gid w. done tt w;
  truncate = λ path size w. done tt w;
  utime = λ path times w. done tt w;
  open_file = λ path flags w. record { value = pos 5; out = tt; world = w };
  pread = λ fd buf size offset w. record { value = pos size; out = take size buf; world = w };
  pwrite = λ fd buf size offset w. record { value = pos size; out = tt; world = w };
  statvfs = λ path buf w. done 1 w;
  fdatasync = λ fd w. done tt w;
  fsync = λ fd w. done tt w;
  lsetxattr = λ path name value size flags w. done tt w;
  getxattr = λ path name value size w. record { value = pos size; out = value; world = w };
  llistxattr = λ path list size w. record { value = pos 0; out = list; world = w };
  lremovexattr = λ path name w. done tt w;
  ftruncate = λ fd size w. done tt w;
  opendir = λ path w. (1, w);
  readdir = λ dir w. next_entry w.entries w;
  closedir = λ dir w. w;
}
