-- ===== src/Tests.antt =====
-- Runs of the models, and the theorems at concrete inputs. No code of the repository is modelled
-- here.
mod Machine
mod Runs
mod Queries
mod Caches
mod Texts
mod Activity
mod Files
mod Disks
mod Cpus
mod Helpers
mod Proc
mod Kernel
mod Sockets
