-- ===== src/Vfs.antt =====
-- virtualFileSystem/vfs.c: the database of folders and files, over a Redis server.
pub mod Create
pub mod Query
pub mod Find
pub mod Listing
pub mod Clients
pub mod Makers
pub mod Unwritten
pub mod Connect
