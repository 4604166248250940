-- ===== src/Wrapper.antt =====
-- virtualFileSystem/virtualFileSystemWrapper.cc: the public calls, by path, with a current
-- directory. A call takes the current directory and the dataset, and returns what it changes of
-- them. `fuel` bounds the walk from a folder to the root.
pub mod Paths
pub mod Commands
pub mod Items
pub mod Unwritten
pub mod Startup
