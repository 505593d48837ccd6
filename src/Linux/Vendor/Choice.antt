-- ===== src/Linux/Vendor/Choice.antt =====
-- os/linux/linux_sigar.c: the choice of the file that tells the vendor.
use re_co_mon_b.Base.{
  ℕ, Bool, true, false, List, [], ◌∷◌, ◌++◌, Option, none, some, Bytes, codes, if◌then◌else◌,
  str_eq,
}
use re_co_mon_b.Linux.Run.{Run, done, ◌>>=◌}
use re_co_mon_b.Linux.Vendor.{
  SysInfo, Sizes, bounded, generic_vendor_parse, redhat_vendor_parse, lsb_parse, xen_parse,
  kv_parse, describe_xen,
}
use re_co_mon_b.Ptql.Host.{Reply, got, failed}

-- The members `parse` of the table; the first stands for NULL.
pub data Parser : Type 0 where
  generic xen redhat lsb : Parser

unfoldable pub parse : Parser → ℕ → Sizes → Bytes → SysInfo → Run SysInfo
unfolding generic_vendor_parse kv_parse redhat_vendor_parse lsb_parse xen_parse
parse generic fuel sizes text info = generic_vendor_parse fuel sizes text info
parse xen fuel sizes text info =
    kv_parse fuel text info (xen_parse sizes) >>= λ parsed. done (describe_xen sizes parsed)
parse redhat fuel sizes text info = redhat_vendor_parse fuel sizes text info
parse lsb fuel sizes text info = kv_parse fuel text info (lsb_parse sizes)

-- `linux_vendor_info_t`
pub record Vendor : Type 0 where
  pub name : Bytes
  pub file : Bytes
  pub parser : Parser

abbrev vendor_info : Bytes → Bytes → Parser → Vendor
vendor_info name file parser = record { name = name; file = file; parser = parser }

abbrev pub linux_vendors : List Vendor
linux_vendors =
    vendor_info (codes "Fedora") (codes "/etc/fedora-release") generic
    ∷ vendor_info (codes "SuSE") (codes "/etc/SuSE-release") generic
    ∷ vendor_info (codes "Gentoo") (codes "/etc/gentoo-release") generic
    ∷ vendor_info (codes "Slackware") (codes "/etc/slackware-version") generic
    ∷ vendor_info (codes "Mandrake") (codes "/etc/mandrake-release") generic
    ∷ vendor_info (codes "VMware") (codes "/proc/vmware/version") generic
    ∷ vendor_info (codes "XenSource") (codes "/etc/xensource-inventory") xen
    ∷ vendor_info (codes "Red Hat") (codes "/etc/redhat-release") redhat
    ∷ vendor_info (codes "lsb") (codes "/etc/lsb-release") lsb
    ∷ vendor_info (codes "Debian") (codes "/etc/debian_version") generic
    ∷ []

-- SIGAR_OS_RELEASE_FILE and SIGAR_OS_VENDOR_NAME, whether `stat` finds a file, what a file has,
-- and ENOENT.
pub record Files : Type 0 where
  pub release_file : Option Bytes
  pub vendor_name : Option Bytes
  pub is_there : Bytes → Bool
  pub text : Bytes → Reply Bytes
  pub enoent : ℕ

-- The vendor that the loop stops at, and the file that is read.
abbrev pub choose_named : List Vendor → Bytes → Bytes → Option (Vendor × Bytes)
unfolding str_eq
choose_named [] file name = none
choose_named (v ∷ vendors) file name =
    if str_eq v.name name then some (v, file) else choose_named vendors file name

abbrev pub choose_there : Files → List Vendor → Option (Vendor × Bytes)
choose_there fs [] = none
choose_there fs (v ∷ vendors) =
    if fs.is_there v.file then some (v, v.file) else choose_there fs vendors

abbrev pub choose_by : Files → Option Bytes → Option Bytes → Option (Vendor × Bytes)
unfolding choose_named
choose_by fs (some file) (some name) = choose_named linux_vendors file name
choose_by fs file name = choose_there fs linux_vendors

unfoldable pub choose : Files → Option (Vendor × Bytes)
unfolding choose_by
choose fs = choose_by fs fs.release_file fs.vendor_name

abbrev pub is_empty : Bytes → Bool
is_empty [] = true
is_empty (c ∷ s) = false

abbrev pub describe : Sizes → SysInfo → SysInfo
describe sizes info =
    if is_empty info.description
    then record info {
      description = bounded sizes.description (info.vendor ++ b' ' ∷ info.vendor_version);
    }
    else info

unfoldable pub read_vendor : ℕ → Sizes → Vendor → SysInfo → Reply Bytes → Reply (Run SysInfo)
unfolding parse
read_vendor fuel sizes v info (failed status) = failed status
read_vendor fuel sizes v info (got text) = got (
    parse v.parser fuel sizes text (record info { vendor = bounded sizes.vendor v.name })
    >>= λ parsed. done (describe sizes parsed))

abbrev pub vendor_info_of :
    ℕ → Sizes → Files → SysInfo → Option (Vendor × Bytes) → Reply (Run SysInfo)
unfolding read_vendor
vendor_info_of fuel sizes fs info none = failed fs.enoent
vendor_info_of fuel sizes fs info (some (v, file)) = read_vendor fuel sizes v info (fs.text file)

unfoldable pub get_linux_vendor_info : ℕ → Sizes → Files → SysInfo → Reply (Run SysInfo)
unfolding choose vendor_info_of
get_linux_vendor_info fuel sizes fs info = vendor_info_of fuel sizes fs info (choose fs)
