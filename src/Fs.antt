-- ===== src/Fs.antt =====
-- fs/aresfs.c: the file system on the disk. One module per part: the bytes and the records on the
-- disk (Bytes, Layout), the disk driver it calls (Device), the state and the block transfers (State),
-- the bitmaps (Alloc), the inode table (Inodes), the block map of a file (Blocks), directories (Dir),
-- names and paths (Names), the body of a file (Body), the mount operations (Mount), and the calls on
-- descriptors and paths (Files, Tree).
pub mod Bytes
pub mod Layout
pub mod Device
pub mod State
pub mod Alloc
pub mod Inodes
pub mod Blocks
pub mod Dir
pub mod Names
pub mod Body
pub mod Mount
pub mod Files
pub mod Tree
mod Tests
