-- ===== src/Tests/Kernel.antt =====
-- The theorems on the texts of Linux's /proc and of release files at concrete inputs.
use re_co_mon_b.Base.{
  suc, ◌+◌, ◌*◌, ◌/◌, ◌^◌, false, List, ◌≡◌, refl, [], ◌∷◌, ◌++◌, none, some, Bytes, codes, arith,
  length, if◌then◌else◌,
}
use re_co_mon_b.Libc.Split.{all_of-IsFree}
use re_co_mon_b.Libc.{is_digit, is_space}
use re_co_mon_b.Linux.Counters.Lines.{labelled, net_interface_stat_get-first}
use re_co_mon_b.Linux.Counters.{
  Statuses, rx_members, tx_members, find_interface, net_interface_stat_get,
}
use re_co_mon_b.Linux.Env.Entries.{environ, proc_env_get-entries}
use re_co_mon_b.Linux.Env.{collect, proc_env_get}
use re_co_mon_b.Linux.Fields.{fields}
use re_co_mon_b.Linux.Memory.Ram.{is_close, get_ram-accepted}
use re_co_mon_b.Linux.Memory.{mtrr_total, get_ram, swap_get}
use re_co_mon_b.Linux.Modules
use re_co_mon_b.Linux.Modules.Regions.{
  Group, lines_of, give_names, names_of, proc_modules_get-regions,
}
use re_co_mon_b.Linux.Modules.{read_region}
use re_co_mon_b.Linux.Run.{done, fault, overflowed, unfinished, overrun}
use re_co_mon_b.Linux.Vendor.KeyValues.{kv_text, unquoted, kv_parse-lines}
use re_co_mon_b.Linux.Vendor.Version.{generic_vendor_parse-ends}
use re_co_mon_b.Linux.Vendor.Choice.{Files, get_linux_vendor_info}
use re_co_mon_b.Linux.Vendor.{Sizes, SysInfo, lsb_parse, hand_on, kv_parse, generic_vendor_parse}
use re_co_mon_b.Ptql.Host.{got, failed}
use re_co_mon_b.Util.Procfs.{Errnos}

abbrev errnos : Errnos
errnos = record { enoent = 2; esrch = 3 }

abbrev entries : List (Bytes × Bytes)
entries = (codes "HOME", codes "/root") ∷ (codes "OPTS", codes "-a=b") ∷ []

proc_env_get-entries_example :
    (proc_env_get collect errnos [] (got (environ entries [])) ≡ got (done entries))
    × (proc_env_get collect errnos [] (got (environ entries (codes "none" ++ 0 ∷ codes "X=1")))
        ≡ got (done entries))
proc_env_get-entries_example =
    proc_env_get-entries errnos entries (codes "none") (codes "X=1")
      (
        (all_of-IsFree b'=' (codes "HOME") refl, omega arith, refl),
        ((all_of-IsFree b'=' (codes "OPTS") refl, omega arith, refl), tt),
      )
      refl (all_of-IsFree b'=' (codes "none") refl)

-- The heap, three regions of one library, and one of another.
abbrev region : Bytes
region = codes "7f00-7f10 r-xp 0000 08:01 131   /lib/a.so" ++ 10 ∷ []

abbrev regions : List Group
regions =
    record { inode = 0; first = codes "0a00-0b00 rw-p 0000 00:00 0   [heap]\n"; others = [] }
    ∷ record { inode = 131; first = region; others = region ∷ region ∷ [] }
    ∷ record { inode = 7; first = codes "7f20-7f30 r-xp 0000 08:01 7   /lib/b.so\n"; others = [] }
    ∷ []

proc_modules_get-regions_example :
    Modules.proc_modules_get Modules.collect [] (got (lines_of regions))
    ≡ got (give_names Modules.collect [] (names_of regions))
unfolding read_region
proc_modules_get-regions_example =
    proc_modules_get-regions Modules.collect [] regions
      ((refl, tt), refl, ((refl, (refl, (refl, tt))), refl, ((refl, tt), refl, tt)))

proc_modules_get_test :
    Modules.proc_modules_get Modules.collect [] (got (lines_of regions))
    ≡ got (codes "/lib/a.so" ∷ codes "/lib/a.so" ∷ codes "/lib/b.so" ∷ [])
unfolding Modules.proc_modules_get
proc_modules_get_test = refl

abbrev sizes : Sizes
sizes = record {
  version = 64;
  vendor = 64;
  vendor_version = 8;
  vendor_code_name = 64;
  description = 64;
}

abbrev info : SysInfo
info = record {
  version = [];
  vendor = [];
  vendor_version = [];
  vendor_code_name = [];
  description = [];
}

abbrev lsb_lines : List (Bytes × Bytes)
lsb_lines =
    (codes "DISTRIB_ID", codes "Ubuntu")
    ∷ (codes "DISTRIB_RELEASE", 34 ∷ (codes "9.04" ++ 34 ∷ []))
    ∷ []

-- A line feed behind the last line, and the loop does not end.
kv_parse-lines_example :
    let text = kv_text lsb_lines [] in
    (kv_parse (length text) text info (lsb_parse sizes)
      ≡ done (hand_on (lsb_parse sizes) info (unquoted lsb_lines)))
    × (kv_parse 1000 (kv_text lsb_lines (10 ∷ [])) info (lsb_parse sizes) ≡ fault unfinished)
kv_parse-lines_example =
    kv_parse-lines lsb_lines 10 [] 1000 info (lsb_parse sizes)
      (
        all_of-IsFree b'=' (codes "DISTRIB_ID") refl,
        omega arith,
        all_of-IsFree 10 (codes "Ubuntu") refl,
        (
          all_of-IsFree b'=' (codes "DISTRIB_RELEASE") refl,
          omega arith,
          all_of-IsFree 10 (34 ∷ (codes "9.04" ++ 34 ∷ [])) refl,
          tt,
        ),
      )
      (all_of-IsFree b'=' (10 ∷ []) refl)

generic_vendor_parse-ends_example :
    (generic_vendor_parse 16 sizes
        (codes "Fedora release " ++ b'9' ∷ (codes ".1" ++ codes " (x)"))
        info
      ≡ done (record info { vendor_version = codes "9.1" }))
    × (generic_vendor_parse
          (suc (length (codes "Fedora release ") + 2 ^ 31))
          sizes
          (codes "Fedora release " ++ b'1' ∷ (codes "2345.6789" ++ codes " (x)"))
          info
        ≡ fault overflowed)
    × (generic_vendor_parse 16 sizes (codes "Fedora release " ++ 10 ∷ []) info ≡ fault overrun)
generic_vendor_parse-ends_example =
    generic_vendor_parse-ends sizes info (codes "Fedora release ") b'9' (codes ".1") b'1'
      (codes "2345.6789") (codes " (x)") 10 (unfold is_digit in refl)
      (unfold is_digit in refl, unfold is_digit in refl)
      (unfold is_digit in refl, unfold is_digit in refl) (unfold is_digit in refl)
      (omega arith, omega arith) (omega arith) (unfold is_space in refl)

abbrev files : Files
files = record {
  release_file = some (codes "/tmp/release");
  vendor_name = some (codes "lsb");
  is_there = λ name. false;
  text = λ name. got (kv_text lsb_lines []);
  enoent = 2;
}

get_linux_vendor_info_test :
    get_linux_vendor_info 100 sizes files info
    ≡ got (
        done (record {
          version = [];
          vendor = codes "Ubuntu";
          vendor_version = codes "9.04";
          vendor_code_name = [];
          description = codes "Ubuntu 9.04";
        }))
unfolding get_linux_vendor_info
get_linux_vendor_info_test = refl

abbrev mtrr : List Bytes
mtrr =
    codes "reg00: base=0x0 (0MB), size=2048MB: write-back, count=1"
    ∷ codes "reg01: base=0x8 (8MB), size= 256MB: uncachable, count=1"
    ∷ []

mtrr_total_test : mtrr_total 0 mtrr ≡ 2048
unfolding mtrr_total
mtrr_total_test = refl

get_ram-accepted_example :
    let sum = mtrr_total 0 mtrr in
    let (kept, ram) = get_ram 2 none (2000 * 2 ^ 20) (got mtrr) in
    if is_close (2000 * 2 ^ 20 / (1024 * 1024)) sum
    then (ram ≡ got sum) × (get_ram 2 kept 0 (failed 5) ≡ (kept, got sum))
    else (ram ≡ failed 2) × (kept ≡ none)
get_ram-accepted_example =
    get_ram-accepted 2 (2000 * 2 ^ 20) mtrr 0 (failed 5) (omega arith)
      (rw mtrr_total_test (omega arith))

swap_get_test :
    swap_get
      (got (codes "SwapTotal:  4 kB" ++ 10 ∷ codes "SwapFree:  1 kB"))
      (got (10 ∷ (codes "pswpin 7" ++ 10 ∷ codes "pswpout 9")))
      (failed 2)
    ≡ got (record { total = 4096; free = 1024; used = 3072; page_in = 7; page_out = 9 })
unfolding swap_get
swap_get_test = refl

abbrev statuses : Statuses
statuses = record { enoent = 2; enxio = 6; enotimpl = 20001 }

abbrev seven : List Bytes
seven = codes "5" ∷ codes "6" ∷ codes "7" ∷ codes "8" ∷ codes "9" ∷ codes "10" ∷ codes "11" ∷ []

abbrev six : List Bytes
six = codes "1" ∷ codes "2" ∷ codes "3" ∷ codes "4" ∷ codes "5" ∷ codes "6" ∷ []

net_interface_stat_get-first_example :
    net_interface_stat_get statuses (codes "eth0") (
      got (
        (codes "    lo: 0" ∷ [])
        ++ (codes "  "
            ++ b'e'
              ∷ (codes "th0"
                  ++ b':' ∷ fields (six ++ ((codes "0" ∷ codes "0" ∷ []) ++ (seven ++ [])))))
          ∷ []))
    ≡ got (labelled rx_members six ++ labelled tx_members seven)
unfolding is_digit is_space
net_interface_stat_get-first_example =
    net_interface_stat_get-first statuses b'e' (codes "th0") (codes "  ") (codes "    lo: 0" ∷ [])
      six (codes "0" ∷ codes "0" ∷ []) seven [] [] (unfold find_interface in refl, tt) refl refl
      (all_of-IsFree b':' (codes "eth0") refl)
      (
        (refl, omega arith),
        (
          (refl, omega arith),
          (
            (refl, omega arith),
            ((refl, omega arith), ((refl, omega arith), ((refl, omega arith), tt))),
          ),
        ),
      )
      ((refl, (refl, tt)), refl)
      (
        (refl, omega arith),
        (
          (refl, omega arith),
          (
            (refl, omega arith),
            (
              (refl, omega arith),
              ((refl, omega arith), ((refl, omega arith), ((refl, omega arith), tt))),
            ),
          ),
        ),
      )
