-- ===== src/Format.antt =====
-- sigar_format.c: values as text. Constants that the source takes from headers outside the
-- repository are arguments.
pub mod Size
pub mod Uptime
pub mod Address
pub mod Names
pub mod Cpu
pub mod Services
