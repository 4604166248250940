-- ===== src/Terminal.antt =====
-- tests/terminalTest.cc: a shell over the calls of virtualFileSystemWrapper.cc.
pub mod Split
pub mod Words
pub mod Names
pub mod Command
