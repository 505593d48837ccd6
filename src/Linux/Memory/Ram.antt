-- ===== src/Linux/Memory/Ram.antt =====
-- os/linux/linux_sigar.c: which sums of the memory type registers are taken for the memory.
use re_co_mon_b.Base.{
  ℕ, ◌+◌, ◌*◌, ◌/◌, ◌^◌, ◌<◌, ◌≡◌, refl, Bool, Bool-cases, inl, inr, ◌&&◌, not, Option, none, some,
  true, List, Bytes, arith, leb, ltb, ◌==◌, if◌then◌else◌,
}
use re_co_mon_b.Linux.Memory.{mtrr_total, accept, read_ram, get_ram}
use re_co_mon_b.Ptql.Host.{Reply, got, failed}

-- The sum is the memory that the kernel has or up to 256 megabytes more.
abbrev pub is_close : ℕ → ℕ → Bool
is_close sys_total total = not (total == 0) && (leb sys_total total && leb total (sys_total + 256))

accept_lem :
    (enoent : ℕ) (ram : Option ℕ) (sys_total total : ℕ)
    → sys_total < 2 ^ 44
    → total < 2 ^ 31
    → accept enoent ram sys_total total
      ≡ (if is_close sys_total total then (some total, got total) else (ram, failed enoent))
accept_lem enoent ram sys_total total s t = ground arith

-- A sum of the write-back registers is taken for the size of the memory, and kept for all later
-- calls, exactly if it is not 0 and lies between what the kernel has and 256 megabytes more; a sum
-- that is smaller is put aside, and nothing is kept.
pub get_ram-accepted :
    (enoent total : ℕ) (lines : List Bytes) (later_total : ℕ) (later : Reply (List Bytes))
    → total < 2 ^ 64
    → mtrr_total 0 lines < 2 ^ 31
    → let sum = mtrr_total 0 lines in
      let (kept, ram) = get_ram enoent none total (got lines) in
      if is_close (total / (1024 * 1024)) sum
      then (ram ≡ got sum) × (get_ram enoent kept later_total later ≡ (kept, got sum))
      else (ram ≡ failed enoent) × (kept ≡ none)
unfolding get_ram read_ram
get_ram-accepted enoent total lines later_total later t s =
    let sum = mtrr_total 0 lines in
    let close = is_close (total / (1024 * 1024)) sum in
    let e = accept_lem enoent none (total / (1024 * 1024)) sum (omega (arith, t)) s in
    elim (Bool-cases close) [
      | inl yes_close ↦
          let positive : (ltb 0 sum && ltb sum (2 ^ 31)) ≡ true = ground (arith, s, yes_close) in
          rw (e, yes_close, positive) (refl, refl)
      | inr no_close ↦ rw (e, no_close) (refl, refl)
    ]
