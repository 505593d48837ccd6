-- ===== src/Ptql.antt =====
-- sigar_ptql.c: the process table query language. A query is a list of branches such as
-- `State.Name.eq=java`; it is parsed once and then matched against processes. The model is that
-- of a build for 64-bit unix without PCRE.
pub mod Types
pub mod Op
pub mod Parse
pub mod Lookup
pub mod Host
pub mod Init
pub mod Add
pub mod Create
pub mod Run
pub mod Match
pub mod Find
