-- ===== src/Sigar.antt =====
-- sigar.c: the portable entry points that keep state in a `sigar_t` or count what the platform
-- files list.
pub mod ProcCpu
pub mod NetStat
pub mod ProcStat
pub mod Interfaces
pub mod NetInfo
pub mod FsType
