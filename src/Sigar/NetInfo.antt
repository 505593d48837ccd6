-- ===== src/Sigar/NetInfo.antt =====
-- sigar.c: the name servers and the default gateway of `sigar_net_info_get`.
use Prim.Native.Nat.{bit_and}
use re_co_mon_b.Base.{
  ℕ, ◌-◌, Bool, true, false, not, ◌&&◌, List, [], ◌∷◌, Option, none, some, Bytes, codes, ◌==◌,
  if◌then◌else◌, length, take, drop,
}
use re_co_mon_b.Format.Address.{NetAddress}
use re_co_mon_b.Libc.{strn_eq}
use re_co_mon_b.Ptql.Host.{Reply, got, failed}
use re_co_mon_b.Util.Text.{skip_spaces}

-- `strstr(ptr, name)`: the text from there on.
unfoldable pub find_text : Bytes → Bytes → Option Bytes
unfolding strn_eq
find_text name [] = none
find_text name (c ∷ ptr) =
    let rest = find_text name ptr in
    if strn_eq (c ∷ ptr) name (length name) then some (c ∷ ptr) else rest

-- The members of `sigar_net_info_t` that the loop fills; an empty text is not set.
pub record Servers : Type 0 where
  pub primary_dns : Bytes
  pub secondary_dns : Bytes

abbrev is_comment : Bytes → Bool
is_comment [] = false
is_comment (c ∷ ptr) = c == b'#'

-- The server of a line, without its last byte, which is a newline but for the last line's.
abbrev pub server_of : Option Bytes → Option Bytes
server_of none = none
server_of (some ptr) = let name = skip_spaces (drop 10 ptr) in some (take (length name - 1) name)

unfoldable pub read_server : Bytes → Option Bytes
unfolding skip_spaces find_text
read_server line =
    let ptr = skip_spaces line in
    if is_comment ptr then none else server_of (find_text (codes "nameserver") ptr)

abbrev is_unset : Bytes → Bool
is_unset [] = true
is_unset (c ∷ s) = false

-- SIGAR_SSTRCPY into a member of `len` bytes.
abbrev bounded : ℕ → Bytes → Bytes
bounded len name = take (len - 1) name

-- A round, and the rest of the loop unless both are set.
abbrev pub fill_server : ℕ → Servers → (Servers → Servers) → Option Bytes → Servers
fill_server len s again none = again s
fill_server len s again (some name) =
    if is_unset s.primary_dns
    then again (record s { primary_dns = bounded len name })
    else if is_unset s.secondary_dns
    then again (record s { secondary_dns = bounded len name })
    else s

-- The loop over the lines of /etc/resolv.conf, with members of `len` bytes.
unfoldable pub read_servers : ℕ → List Bytes → Servers → Servers
unfolding read_server
read_servers len [] s = s
read_servers len (line ∷ lines) s = fill_server len s (read_servers len lines) (read_server line)

-- `sigar_net_route_t`, as far as it is read.
pub record Route : Type 0 where
  pub flags : ℕ
  pub destination : ℕ
  pub gateway : NetAddress

-- The loop of `sigar_get_default_gateway`, with SIGAR_RTF_GATEWAY: the gateway that is written.
unfoldable pub default_gateway : ℕ → List Route → Option NetAddress
default_gateway rtf_gateway [] = none
default_gateway rtf_gateway (r ∷ routes) =
    let rest = default_gateway rtf_gateway routes in
    if not (bit_and r.flags rtf_gateway == 0) && (r.destination == 0) then some r.gateway else rest

-- `sigar_get_default_gateway`.
unfoldable pub get_default_gateway : ℕ → Reply (List Route) → Reply (Option NetAddress)
unfolding default_gateway
get_default_gateway rtf_gateway (failed status) = failed status
get_default_gateway rtf_gateway (got routes) = got (default_gateway rtf_gateway routes)
