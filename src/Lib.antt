-- ===== src/Lib.antt =====
-- ReCoMonB shows a computer's load on a display; its Java program reads the sensors through the C
-- library SIGAR, whose sources are part of the repository. This library models the portable C files
-- of pc/lib/hyperic-sigar-1.6.4/src, each under its name, and parts of the one for Linux.
--
-- Ptql models sigar_ptql.c, the language in which processes are searched for. Types has its
-- structures, Op the operators and their tables (`ptql_op_code_get`, `ptql_op_str_eq` and the
-- like), Parse `ptql_branch_parse`, Lookup the tables of methods and attributes, Init the `init`
-- functions of a lookup, Add `ptql_branch_add`, Create `sigar_ptql_query_create`, Match
-- `sigar_ptql_query_match` with the functions that a branch calls, and Find `ptql_pid_list_get`,
-- `ptql_proc_list_get`, `sigar_ptql_query_find` and `sigar_ptql_query_find_process`. A query is a
-- list of branches; its index is a branch's place in the array, and the size of the array is kept.
-- What a branch has read, to which later references lead, is the argument `seen` of the matching.
-- The errors are values that keep the arguments of the message.
--
-- Host is what that file asks of others: the readers of processes in os/, the environment,
-- floating-point numbers and files. Its answers hold for the time of one query. Undefined
-- behaviour, such as a member of a union read after another was written, is the value `fault` of
-- Run.
--
-- Cache models sigar_cache.c: a chain is a list of entries, a table the list of its chains with the
-- count and the size, and the freeing of a table the list of what is freed. A caller's write
-- through the entry that `sigar_cache_get` returned is `store`.
--
-- Util models parts of sigar_util.c: `sigar_strcasestr` in Util itself, numbers and words in Text,
-- shares of memory and file systems in Usage, `sigar_iodev_get` with its cache in Iodev, the
-- reading of /proc in Procfs, CPU models in CpuModel, and the rolling up of processors in Cores.
-- Format models sigar_format.c: Size, Uptime, Address, Names, Cpu, and Services, which reads a file
-- of services into a Cache. Constants of headers that the repository does not have are arguments
-- there.
--
-- Sigar models parts of sigar.c: ProcCpu `sigar_proc_cpu_get` with its cache, ProcStat
-- `sigar_proc_stat_get`, NetStat the counting of connections with the cache of listening addresses,
-- of which `sigar_net_connection_walk` of the platform files is an argument, Interfaces the list of
-- /proc/net/dev and the primary interface, NetInfo the name servers and the default gateway, and
-- FsType the types of file systems. FileInfo models sigar_fileinfo.c as it is built for Unix: Stat,
-- Perms and Dir, with the system's files as an argument. Signal models sigar_signal.c.
--
-- Linux models parts of os/linux/linux_sigar.c: `proc_stat_read` with the record of the last
-- process, which is passed and given back, the readers of a process in Process, the times of the
-- processors in Cpu, and the mounted file systems in FsType; Env and Modules hand the environment
-- and the mapped files of a process to a callback, Memory models `sigar_mem_get` with `get_ram`,
-- and `sigar_swap_get`, Counters the lines of counters in /proc/net, Net the walk over the
-- connections and in Owner `sigar_proc_port_get`, Disk with Files the readers of the usage of a
-- disk and in Get `sigar_disk_usage_get`, with the device that the cache gives as an argument,
-- CpuInfo the list of processors, and Vendor the files that the distributions have, of which Choice
-- takes one. What the files have is an argument.
-- Run has the ways in which that code ends badly: a read behind a text, a write outside a buffer, a
-- read of what was not set or through NULL, the overflow of an `int`, and a loop that is not at its
-- end when its fuel is;
-- Fields and Row have the lines that the kernel writes.
--
-- Libc has the functions of the C library that these files call, in the C locale, with `long` of 64
-- bits, `int` of 32 bits and signed characters; Base has tests on numbers, lists with native
-- indices and C strings. Tests has runs and the theorems at concrete inputs.
--
-- The build modelled is a 64-bit Unix without PCRE, where memory is never exhausted. Fuel: the loop
-- over the branches of a query takes a comma and a byte behind it in every round but the last, so
-- the length of the text and one more are enough; the loop over the digits of a 32-bit number has
-- ten units, which is the most digits that it writes. The loop over the units of a size goes along
-- its letters, of which there are enough for 64 bits. The loop over /proc/cpuinfo takes a line in
-- each round but the last. The recursion of `dir_stat_get` enters longer and longer paths, so
-- SIGAR_PATH_MAX and one more are enough. The loops over a text of entries take a byte in each
-- round, so its length is enough, but for those of Vendor: the one over keys and values need not
-- end, and the one that looks for a version takes a round for each byte, or goes round until an
-- `int` overflows.
--
-- Not modelled: of sigar.c, the names of the host, the ioctls on interfaces, users, limits,
-- passwords, and the lists whose macros stand in headers that the repository does not have; of
-- sigar_fileinfo.c, what is built for Windows and NetWare; sigar_getline.c, a copy of another
-- project's; of os/linux, the list of processes and routes; the other directories of os/, jni/ and
-- org/; in the other files, what calls the operating system or is built for Windows only; the Java
-- program.
pub mod Base
pub mod Libc
pub mod Util
pub mod Ptql
pub mod Cache
pub mod Format
pub mod Sigar
pub mod FileInfo
pub mod Linux
pub mod Signal
mod Tests
