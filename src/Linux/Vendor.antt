-- ===== src/Linux/Vendor.antt =====
-- os/linux/linux_sigar.c: the vendor and the version of the system, from the files that the
-- distributions have.
pub mod Choice
pub mod Version
pub mod KeyValues
use re_co_mon_b.Base.{
  ℕ, zero, suc, ◌+◌, ◌-◌, Bool, ◌||◌, List, [], ◌∷◌, ◌++◌, Option, none, some, Bytes, codes, ltb,
  leb, ◌^◌, ◌==◌, if◌then◌else◌, str_eq, length, take,
}
use re_co_mon_b.Libc.{is_digit, split_at, strn_eq}
use re_co_mon_b.Linux.Run.{Run, done, fault, overrun, smashed, overflowed, unfinished, ◌>>=◌}
use re_co_mon_b.Util.Text.{skip_spaces}

-- `sigar_sys_info_t`, as far as it is set here.
pub record SysInfo : Type 0 where
  pub version : Bytes
  pub vendor : Bytes
  pub vendor_version : Bytes
  pub vendor_code_name : Bytes
  pub description : Bytes

-- The sizes of its members, which a header gives.
pub record Sizes : Type 0 where
  pub version : ℕ
  pub vendor : ℕ
  pub vendor_version : ℕ
  pub vendor_code_name : ℕ
  pub description : ℕ

-- `SIGAR_SSTRCPY` and `snprintf` into a buffer of the size.
abbrev pub bounded : ℕ → Bytes → Bytes
bounded size s = take (size - 1) s

-- The digits and dots at `ptr`.
unfoldable pub version_run : Bytes → Bytes
unfolding is_digit
version_run [] = []
version_run (c ∷ ptr) = if is_digit c || c == b'.' then c ∷ version_run ptr else []

-- A round at a digit, behind the loop over the digits; `len`, an `int`, has grown by their number,
-- if it could. The loop goes on by `again`, which takes `len` and `line`.
abbrev pub on_run : ℕ → ℕ → Bytes → (ℕ → Bytes → Run (Option Bytes)) → Run (Option Bytes)
on_run size len line again =
    if leb (2 ^ 31) len
    then fault overflowed
    else if ltb size len
    then again len line
    else if len == size
    then fault smashed
    else done (some (take len line))

-- A round, where the blanks are skipped.
abbrev pub at_word : ℕ → ℕ → Bytes → (ℕ → Bytes → Run (Option Bytes)) → Run (Option Bytes)
unfolding is_digit version_run
at_word size len [] again = fault overrun
at_word size len (c ∷ line) again =
    if is_digit c
    then on_run size (len + length (version_run (c ∷ line))) (c ∷ line) again
    else again len line

-- `while (*line)` of `generic_vendor_parse`, with `len`, on fuel: the version, if there is one. The
-- blanks are skipped before the byte is looked at, and the byte is stepped over where it is no
-- digit, the terminating zero too.
unfoldable pub generic_loop : ℕ → ℕ → ℕ → Bytes → Run (Option Bytes)
unfolding skip_spaces at_word
generic_loop fuel size len [] = done none
generic_loop zero size len (c ∷ line) = fault unfinished
generic_loop (suc fuel) size len (c ∷ line) =
    at_word size len (skip_spaces (c ∷ line)) (λ n rest. generic_loop fuel size n rest)

abbrev pub with_version : SysInfo → Option Bytes → SysInfo
with_version info none = info
with_version info (some version) = record info { vendor_version = version }

unfoldable pub generic_vendor_parse : ℕ → Sizes → Bytes → SysInfo → Run SysInfo
unfolding generic_loop
generic_vendor_parse fuel sizes line info =
    generic_loop fuel sizes.vendor_version 0 line >>= λ found. done (with_version info found)

-- The text between the brackets is copied without a look at the size of its buffer.
abbrev pub copy_code_name : Sizes → SysInfo → Option (Bytes × Bytes) → Run SysInfo
copy_code_name sizes info none = done info
copy_code_name sizes info (some (name, after)) =
    if ltb (length name) sizes.vendor_code_name
    then done (record info { vendor_code_name = name })
    else fault smashed

abbrev pub read_code_name : Sizes → SysInfo → Option (Bytes × Bytes) → Run SysInfo
unfolding split_at
read_code_name sizes info none = done info
read_code_name sizes info (some (before, start)) = copy_code_name sizes info (split_at b')' start)

abbrev pub has_prefix : Bytes → Bytes → Bool
unfolding strn_eq
has_prefix line prefix = strn_eq line prefix (length prefix)

abbrev pub set_redhat : Sizes → Bytes → SysInfo → SysInfo
set_redhat sizes line info =
    if has_prefix line (codes "Red Hat Enterprise Linux ")
    then record info {
      vendor_version =
          bounded sizes.vendor_version (codes "Enterprise Linux " ++ take 1 info.vendor_version);
    }
    else if has_prefix line (codes "CentOS")
    then record info { vendor = bounded sizes.vendor (codes "CentOS") }
    else if has_prefix line (codes "Scientific Linux")
    then record info { vendor = bounded sizes.vendor (codes "Scientific Linux") }
    else info

unfoldable pub redhat_vendor_parse : ℕ → Sizes → Bytes → SysInfo → Run SysInfo
unfolding generic_vendor_parse read_code_name split_at strn_eq
redhat_vendor_parse fuel sizes line info = do
  parsed ← generic_vendor_parse fuel sizes line info
  named ← read_code_name sizes parsed (split_at b'(' line)
  done (set_redhat sizes line named)

abbrev pub is_quote : ℕ → Bool
is_quote c = c == 39 || c == 34

-- `val[vlen - 1] = '\0'` where it is a quote.
unfoldable pub drop_quote : Bytes → Bytes
drop_quote [] = []
drop_quote (c ∷ []) = if is_quote c then [] else c ∷ []
drop_quote (c ∷ d ∷ val) = c ∷ drop_quote (d ∷ val)

abbrev pub tail : Bytes → Bytes
tail [] = []
tail (c ∷ s) = s

unfoldable pub unquote : Bytes → Bytes
unfolding drop_quote
unquote [] = []
unquote (c ∷ val) = if is_quote c then tail (drop_quote (c ∷ val)) else c ∷ val

-- The value's line, and what stands behind the line.
abbrev pub cut_line : Bytes → Option (Bytes × Bytes) → Bytes × Bytes
cut_line val none = (val, [])
cut_line val (some (line, rest)) = (line, rest)

-- The size of `key`.
abbrev pub key_size : ℕ
key_size = 256

-- A round for a key that fits and the value's line; the loop goes on by `next`.
abbrev pub on_pair :
    Bytes → Bytes × Bytes → (Bytes → Run (List (Bytes × Bytes))) → Run (List (Bytes × Bytes))
unfolding unquote
on_pair key (val, rest) next =
    if ltb (length key) key_size
    then (next rest >>= λ pairs. done ((key, unquote val) ∷ pairs))
    else fault smashed

-- A round; where there is no `=`, it changes nothing.
abbrev pub on_key :
    Bytes
    → Option (Bytes × Bytes)
    → (Bytes → Run (List (Bytes × Bytes)))
    → Run (List (Bytes × Bytes))
unfolding on_pair split_at
on_key ptr none next = next ptr
on_key ptr (some (key, after)) next = on_pair key (cut_line after (split_at 10 after)) next

-- `while (ptr < end)` of `kv_parse` on fuel: what is handed to `func`.
unfoldable pub kv_loop : ℕ → Bytes → Run (List (Bytes × Bytes))
unfolding split_at on_key
kv_loop fuel [] = done []
kv_loop zero (c ∷ ptr) = fault unfinished
kv_loop (suc fuel) (c ∷ ptr) =
    on_key (c ∷ ptr) (split_at b'=' (c ∷ ptr)) (λ rest. kv_loop fuel rest)

unfoldable pub lsb_parse : Sizes → SysInfo → Bytes × Bytes → SysInfo
unfolding str_eq
lsb_parse sizes info (key, val) =
    if str_eq key (codes "DISTRIB_ID")
    then record info { vendor = bounded sizes.vendor val }
    else if str_eq key (codes "DISTRIB_RELEASE")
    then record info { vendor_version = bounded sizes.vendor_version val }
    else if str_eq key (codes "DISTRIB_CODENAME")
    then record info { vendor_code_name = bounded sizes.vendor_code_name val }
    else info

unfoldable pub xen_parse : Sizes → SysInfo → Bytes × Bytes → SysInfo
unfolding str_eq
xen_parse sizes info (key, val) =
    if str_eq key (codes "PRODUCT_VERSION")
    then record info { vendor_version = bounded sizes.vendor_version val }
    else if str_eq key (codes "KERNEL_VERSION")
    then record info { version = bounded sizes.version val }
    else info

-- The calls of `func`, in order.
abbrev pub hand_on : (SysInfo → Bytes × Bytes → SysInfo) → SysInfo → List (Bytes × Bytes) → SysInfo
hand_on func info [] = info
hand_on func info (pair ∷ pairs) = hand_on func (func info pair) pairs

unfoldable pub kv_parse : ℕ → Bytes → SysInfo → (SysInfo → Bytes × Bytes → SysInfo) → Run SysInfo
unfolding kv_loop
kv_parse fuel text info func = kv_loop fuel text >>= λ pairs. done (hand_on func info pairs)

abbrev pub describe_xen : Sizes → SysInfo → SysInfo
describe_xen sizes info = record info {
  description = bounded sizes.description (codes "XenServer " ++ info.vendor_version);
}
