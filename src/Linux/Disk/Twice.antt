-- ===== src/Linux/Disk/Twice.antt =====
-- os/linux/linux_sigar.c: the second call of `sigar_disk_usage_get` for a device whose name the
-- first has cut.
use re_co_mon_b.Base.{
  ℕ, ◌%◌, ◌≡◌, refl, true, false, not, ◌&&◌, Option, none, some, [], ◌∷◌, ◌++◌, Bytes, arith, ◌==◌,
  all_of, Bool-cases, inl, inr, if◌then◌else◌,
}
use re_co_mon_b.Libc.Double.{Doubles}
use re_co_mon_b.Libc.Radix.{strtoull_base}
use re_co_mon_b.Libc.{is_digit}
use re_co_mon_b.Linux.Disk.Get.{System, Result, iostat_sys, disk_usage_get, timed}
use re_co_mon_b.Linux.Disk.{
  Device, Constants, to_digit, strip_dev, sys_path, on_sys, get_iostat_sys,
}
use re_co_mon_b.Linux.Run.{Run, done, fault, overrun, ◌>>=◌}
use re_co_mon_b.Linux.{u32}

to_digit-append :
    (name digits : Bytes) (c : ℕ)
    → all_of (λ x. not (is_digit x)) name ≡ true
    → is_digit c ≡ true
    → to_digit (name ++ c ∷ digits) ≡ done (name, c ∷ digits)
unfolding to_digit
to_digit-append [] digits c h e = rw e refl
to_digit-append (x ∷ name) digits c h e =
    let other : is_digit x ≡ false = ground (arith, h) in
    rw (other, to_digit-append name digits c (ground (arith, h)) e) refl

to_digit-none :
    (name : Bytes) → all_of (λ x. not (is_digit x)) name ≡ true → to_digit name ≡ fault overrun
unfolding to_digit
to_digit-none [] h = refl
to_digit-none (x ∷ name) h =
    let other : is_digit x ≡ false = ground (arith, h) in
    rw (other, to_digit-none name (ground (arith, h))) refl

module _ (d : Doubles) (k : Constants d) where
  -- The name of the device that a call leaves.
  abbrev pub kept_name : Run (Result d k) → Option Bytes
  kept_name (done (some kept, disk, status)) = some kept.name
  kept_name (done (none, disk, status)) = none
  kept_name (fault e) = none

  disk_usage_get-no_digit :
      (sys : System) (dev : Device d.Double)
      → all_of (λ x. not (is_digit x)) dev.name ≡ true
      → disk_usage_get d k iostat_sys sys (some dev) ≡ fault overrun
  unfolding disk_usage_get get_iostat_sys
  disk_usage_get-no_digit sys dev h = rw (to_digit-none dev.name h) refl

  -- With IOSTAT_SYS, a call for a device whose name has a digit leaves the name cut in front of
  -- the first digit, whatever the files answer, if the uptime is read; the next call for that
  -- device, at any time, reads behind the end of the name.
  pub disk_usage_get-twice :
      (sys later : System) (dev : Device d.Double) (name digits : Bytes) (c uptime : ℕ)
      → sys.uptime ≡ some uptime
      → all_of (λ x. not (is_digit x)) name ≡ true
      → is_digit c ≡ true
      → let first =
          disk_usage_get d k iostat_sys sys (some (record dev { name = name ++ c ∷ digits })) in
        (kept_name first ≡ some name)
        × ((first >>= λ r. disk_usage_get d k iostat_sys later r.0) ≡ fault overrun)
  unfolding disk_usage_get get_iostat_sys
  disk_usage_get-twice sys later dev name digits c uptime up h e =
      let partition = (strtoull_base 0 (c ∷ digits)).0 % u32 in
      let r = on_sys d k k.init (sys.file (sys_path d k (strip_dev d k name) partition)) in
      elim (Bool-cases (r.1 == 0)) [
        | inl ok ↦
            rw (to_digit-append name digits c h e, ok, up)
              (
                refl,
                disk_usage_get-no_digit later
                    (record dev {
                      name = name;
                      disk =
                          timed d k uptime dev.disk
                            (if dev.is_partition && false then k.init else r.0);
                    })
                    h,
              )
        | inr failed ↦
            rw (to_digit-append name digits c h e, failed)
              (refl, disk_usage_get-no_digit later (record dev { name = name }) h)
      ]
