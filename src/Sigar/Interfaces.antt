-- ===== src/Sigar/Interfaces.antt =====
-- sigar.c: the network interfaces that Linux lists, and the choice of the primary one.
pub mod Primary
use Prim.Native.Nat.{bit_and}
use re_co_mon_b.Base.{
  ℕ, Bool, true, false, not, ◌||◌, List, [], ◌∷◌, ◌++◌, Option, none, some, Bytes, ◌==◌,
  if◌then◌else◌, str_eq, drop,
}
use re_co_mon_b.Libc.{split_at}
use re_co_mon_b.Ptql.Host.{Reply, got, failed}
use re_co_mon_b.Util.Text.{skip_spaces}

-- `has_interface`
unfoldable pub has_interface : List Bytes → Bytes → Bool
unfolding str_eq
has_interface [] name = false
has_interface (own ∷ iflist) name = str_eq name own || has_interface iflist name

abbrev pub add_device : List Bytes → Option (Bytes × Bytes) → List Bytes
add_device iflist none = iflist
add_device iflist (some (dev, ptr)) =
    if has_interface iflist dev then iflist else iflist ++ dev ∷ []

-- The loop of `proc_net_interface_list_get` over the lines of /proc/net/dev.
unfoldable pub add_devices : List Bytes → List Bytes → List Bytes
unfolding has_interface skip_spaces split_at
add_devices iflist [] = iflist
add_devices iflist (line ∷ lines) =
    add_devices (add_device iflist (split_at b':' (skip_spaces line))) lines

-- `proc_net_interface_list_get`, which skips two lines; a file that cannot be opened adds nothing.
unfoldable pub proc_net_interface_list_get : List Bytes → Reply (List Bytes) → List Bytes
unfolding add_devices
proc_net_interface_list_get iflist (failed errno) = iflist
proc_net_interface_list_get iflist (got lines) = add_devices iflist (drop 2 lines)

-- `sigar_net_interface_config_t`, as far as it is read.
pub record Config : Type 0 where
  pub flags : ℕ
  pub hwaddr : ℕ
  pub address : ℕ

-- What the function asks of others: the interfaces, the configuration of each, SIGAR_IFF_LOOPBACK
-- and SIGAR_ENXIO.
pub record Network : Type 0 where
  pub interfaces : Reply (List Bytes)
  pub config : Bytes → Reply Config
  pub iff_loopback : ℕ
  pub enxio : ℕ

abbrev pub is_alias : Bytes → Bool
is_alias [] = false
is_alias (c ∷ name) = (c == b':') || is_alias name

-- Where the loop ends: the interface that was found, and `possible_config`.
pub record Search : Type 0 where
  pub found : Option Config
  pub possible : Config

abbrev pub save : Config → Config → Config
save possible c = if possible.flags == 0 then c else possible

-- A round with the configuration of the interface; `again` is the rest of the loop.
abbrev pub consider : Network → Bytes → Config → (Config → Search) → Reply Config → Search
consider n name possible again (failed status) = again possible
consider n name possible again (got c) =
    let saved = save possible c in
    if not (bit_and c.flags n.iff_loopback == 0) || (c.hwaddr == 0)
    then again possible
    else if (c.address == 0) || is_alias name
    then again saved
    else record { found = some c; possible = saved }

unfoldable pub primary_loop : Network → List Bytes → Config → Search
primary_loop n [] possible = record { found = none; possible = possible }
primary_loop n (name ∷ iflist) possible =
    consider n name possible (primary_loop n iflist) (n.config name)

-- The tests behind the loop.
abbrev pub decide : Network → Search → Reply Config
decide n s = elim s.found [
  | some c ↦ got c
  | none ↦ if s.possible.flags == 0 then failed n.enxio else got s.possible
]

abbrev pub choose_primary : Network → Reply (List Bytes) → Reply Config
choose_primary n (failed status) = failed status
choose_primary n (got iflist) =
    decide n (primary_loop n iflist (record { flags = 0; hwaddr = 0; address = 0 }))

-- `sigar_net_interface_config_primary_get`.
unfoldable pub net_interface_config_primary_get : Network → Reply Config
unfolding primary_loop
net_interface_config_primary_get n = choose_primary n n.interfaces
