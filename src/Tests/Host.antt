-- ===== src/Tests/Host.antt =====
-- The theorems on fuse/examplefs.cc and fuse/main.c at concrete inputs.
use redis_virtual_file_syste.Common.{
  ℕ, ◌+◌, ◌≡◌, refl, [], ◌∷◌, ◌++◌, Bytes, codes, ℤ, pos, arith, ok, fault, length, ltb,
  if◌then◌else◌, none, some,
}
use redis_virtual_file_syste.Posix.{Answer}
use redis_virtual_file_syste.Posix.Host.{host, HostState}
use redis_virtual_file_syste.ExampleFs.{ExampleFs, FileInfo, abs_path, set_root_dir, new_example_fs}
use redis_virtual_file_syste.ExampleFs.Files.{open_file, read, write}
use redis_virtual_file_syste.ExampleFs.Directories.{readdir}
use redis_virtual_file_syste.ExampleFs.Files
use redis_virtual_file_syste.Mount.Wrap.{wrap_flush}
use redis_virtual_file_syste.ExampleFs.Paths.{abs_path_bounds, status_of, open_file-read}
use redis_virtual_file_syste.ExampleFs.Listing.{StreamOf, ended, entry, readdir-fill_loop}
use redis_virtual_file_syste.Fuse.{fill_loop}
use redis_virtual_file_syste.Mount.State.{Program}
use redis_virtual_file_syste.Mount.Requests.{Reach, here, next, handled, flush, unlink}
use redis_virtual_file_syste.Mount.Unrooted.{handled-Reach_new}

abbrev idle : HostState
idle = record { last_error = pos 2; entries = codes "a" ∷ codes "b" ∷ [] }

abbrev rooted : ExampleFs
rooted = set_root_dir (codes "/srv") new_example_fs

abbrev some_file : FileInfo
some_file = record { fh = 5; flags = pos 0 }

abs_path_long : abs_path host rooted (codes "/x") ≡ ok (codes "/srv/x")
unfolding abs_path set_root_dir
abs_path_long = refl

abs_path_bounds_example : abs_path host (record { root = some (codes "/srv") }) (codes "/x") ≡ (
    if ltb (length (codes "/srv" ++ codes "/x")) 4096
    then ok (codes "/srv" ++ codes "/x")
    else fault)
abs_path_bounds_example = abs_path_bounds host (codes "/srv") (codes "/x")

open_file-read_example :
    (a : Answer HostState FileInfo) × (open_file host rooted (codes "/x") some_file idle ≡ ok a)
    × (a.value ≡ pos 0)
    × (a.world ≡ (host.open_file (codes "/srv/x") (pos 0) idle).world)
    × ((buf : Bytes) (size : ℕ) (offset : ℤ) (w' : HostState)
        → (let done = host.pread (pos 5) buf size offset w' in
            read host (codes "/x") buf size offset a.out w'
            ≡ record done { value = status_of host done.value done.world })
          × (let done = host.pwrite (pos 5) buf size offset w' in
              write host (codes "/x") buf size offset a.out w'
              ≡ record done { value = status_of host done.value done.world }))
open_file-read_example =
    open_file-read host rooted (codes "/x") (codes "/srv/x") some_file idle abs_path_long
      (omega arith)

abbrev count : ℕ → Bytes → ℕ × ℕ
count n name = (0, n + 1)

entries-StreamOf : StreamOf host 5 idle (codes "a" ∷ codes "b" ∷ []) (record idle { entries = [] })
entries-StreamOf = entry refl (entry refl (ended refl))

readdir-fill_loop_example :
    (a : Answer HostState ℕ) × (readdir host 2 count 0 some_file idle ≡ ok a)
    × ((a.value, a.out) ≡ fill_loop count 0 (codes "a" ∷ codes "b" ∷ []))
readdir-fill_loop_example =
    readdir-fill_loop host count 0 some_file 2 (codes "a") (codes "b" ∷ []) idle
      (record idle { entries = [] }) (omega arith) entries-StreamOf

abbrev started : Program HostState
started = record { the_instance = none; world = idle }

abbrev flushed : Program HostState
flushed = record { the_instance = some new_example_fs; world = idle }

flushed-Reach : Reach host ℕ 1 started flushed
unfolding handled wrap_flush Files.flush
flushed-Reach = next (flush (codes "/x") some_file) here refl

handled-Reach_new_example : handled host ℕ 1 (unlink (codes "/x")) flushed ≡ fault
handled-Reach_new_example =
    handled-Reach_new host ℕ 1 idle flushed (unlink (codes "/x")) flushed-Reach refl
