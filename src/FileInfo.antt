-- ===== src/FileInfo.antt =====
-- sigar_fileinfo.c, as it is built for Unix: the attributes of files and the counting of
-- directories.
pub mod Perms
pub mod FileType
pub mod Stat
pub mod Dir
