-- ===== src/PathParser.antt =====
-- virtualFileSystem/vfsPathParser.c: from a path to the ids that it names. A path is the text up to
-- its NUL, with the length that the caller passes; every caller passes at most the text's length.
pub mod State
pub mod Scan
pub mod Walk
pub mod Debug
