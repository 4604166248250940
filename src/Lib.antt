-- ===== src/Lib.antt =====
-- A model of redisVirtualFileSystem: a file system whose folders and files are kept in a Redis
-- server, a parser of paths over it, and the calls that a program or FUSE makes.
--
-- The parts, from the server up, and the files that model them:
--   * The server, and the client library virtualFileSystem/hiredis that talks to it, are the
--     parameter `Redis` (Redis.antt): a type of datasets and a function for each command that the
--     code sends. `IsRedis` is what the commands' documentation says of them, key by key.
--     Redis/Memory.antt has a server in memory with these laws, for the tests.
--   * virtualFileSystem/vfs.c keeps, under the keys of Keys.antt, a hash for each folder and
--     file, a list of folders and one of files for each folder, the counter of ids and the mark
--     of an initialised database. Vfs/Create.antt models the writes (getNewId, vfs_mkdir,
--     vfs_createFile, __removeIdFromFileList, vfs_buildDatabase and the rest), Vfs/Query.antt the
--     reads of one field, Vfs/Find.antt the searches by name, Vfs/Listing.antt vfs_ls,
--     vfs_listUnixStyle and vfs_getDirPathFromId, Vfs/Connect.antt vfs_connect, Vfs/Clients.antt
--     the commands of getNewId from two programs at once, Vfs/Makers.antt the commands of
--     vfs_mkdir from two programs at once, and Vfs/Unwritten.antt the functions with empty
--     bodies.
--   * virtualFileSystem/vfsPathParser.c: PathParser/State.antt has the parser's state,
--     PathParser/Scan.antt the scans of the text (vfs_seperatePathAndName, getLengthOfNextName),
--     PathParser/Walk.antt what reads the server on the way (vfs_getDirIdFromPath, vfs_parsePath,
--     vfs_deleteObjectWithPath), PathParser/Debug.antt vfs_debug_printParserState.
--   * virtualFileSystem/vfs_safe.cc, reads that return C++ values: Safe.antt.
--   * virtualFileSystem/virtualFileSystemWrapper.cc: Wrapper/Paths.antt has the paths relative to
--     the current directory, Wrapper/Commands.antt getInitialContext, cd, mkdir, createFile and
--     ls_pretty_print, Wrapper/Items.antt ls, getDirItemInfo and stat, Wrapper/Unwritten.antt
--     pwd, the stubs mv and redis_mv and the class Path of the header, Wrapper/Startup.antt the
--     connection that getInitialContext makes.
--   * fuse/redisfs.cc: Fuse.antt has Instance, Getattr and Readdir, Fuse/Callbacks.antt the
--     callbacks that print and return a constant, Fuse/Class.antt the class of fuse/redisfs.hpp.
--     FUSE's filler is a parameter.
--   * fuse/examplefs.cc passes FUSE's requests on to the host's file system below a root. The
--     calls of the operating system are the parameter `Posix` (Posix.antt; Posix/Host.antt has a
--     small host for the tests). ExampleFs.antt has the object and AbsPath, its children the
--     callbacks and, in ExampleFs/Class.antt, the class of fuse/examplefs.hh.
--   * fuse/main.c and fuse/wrap.cc: Mount.antt has the table of callbacks and main,
--     Mount/Wrap.antt each wrapper, Mount/State.antt the program's state, Mount/Requests.antt
--     requests in any order.
--   * tests/terminalTest.cc, a shell over the wrapper: Terminal/Split.antt has split,
--     Terminal/Command.antt the commands and the loop of main over the lines read so far,
--     Terminal/Words.antt and Terminal/Names.antt what words and which commands a line has.
-- Libc has what the code uses of C: `%lu` and `%ld`, strtol, strncmp. Common has shared helpers.
--
-- A function that reads takes the dataset, and one that writes returns the next one. `Outcome`
-- (Common/Outcomes.antt) tells a result from a fault (a null pointer or a buffer overrun, where C
-- has no defined behaviour), from a C++ exception and from a loop that ran out of fuel. A text is
-- the list of its bytes without the NUL; a `long` is an integer. A variable that the code leaves
-- uninitialised is an argument. The link count of a `struct stat` is unsigned, of 64 bits.
--
-- Fuel: the loop of vfs_getDirIdFromPath gets one round more than the length, and each round
-- passes a slash; the loop of split likewise gets one more than the length, and each round passes
-- a delimiter. The loop of ExampleFS' Readdir takes fuel as an argument, and more than the
-- further names of the stream is enough. The loops that climb to the root take fuel as an
-- argument; a parent is older than its folder, so that more fuel than the folder's id is enough.
-- Ids have to fit a `long`.
--
-- Spec has the file system without keys, prints and replies: Spec.antt the state and the
-- operations, Spec/Tree.antt when it is well-formed, Spec/Lookup.antt names and paths,
-- Spec/Path.antt the absolute path of a folder, Spec/Command.antt paths in a current directory,
-- Spec/Fresh.antt and Spec/FreshFile.antt folders and files of a fresh name, Spec/Rename.antt
-- files under a new name, Spec/Unlink.antt what is found behind a deletion, Spec/Order.antt file
-- systems up to the order of their lists. `Represents` (Refine/Represents.antt) says that every
-- key of a dataset holds what the abstract file system says, and the modules under Refine relate
-- the calls of the code to the abstract operations; Refine/Session.antt is on sequences of calls,
-- Refine/Shell.antt and Refine/Script.antt on runs of the terminal, with Refine/Said.antt for
-- what it prints and Refine/Script/Quiet.antt on lines that make nothing, and Refine/Makers.antt
-- on two programs at once, whose listings are compared in a quotient that forgets the order of
-- the names (Refine/Makers/Names.antt). Tests has a small file system, runs, and the theorems
-- applied to it.
--
-- Not modelled: what the code only prints (the text of the terminal's commands and of
-- vfs_debug_printParserState is modelled), the memory that it allocates and frees, other clients
-- that write between two commands of a call (but for getNewId and vfs_mkdir), and the vendored
-- hiredis and gtest, whose calls are parameters where the code makes them.
pub mod Common
pub mod Libc
pub mod Redis
pub mod Keys
pub mod Vfs
pub mod PathParser
pub mod Safe
pub mod Wrapper
pub mod Posix
pub mod Fuse
pub mod ExampleFs
pub mod Mount
pub mod Terminal
pub mod Spec
pub mod Refine
pub mod Tests
