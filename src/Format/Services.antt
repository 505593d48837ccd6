-- ===== src/Format/Services.antt =====
-- sigar_format.c: the names of network services, read from a file into a cache.
pub mod First
use re_co_mon_b.Base.{
  ℕ, Bool, true, false, ◌||◌, List, [], ◌∷◌, Option, none, some, Bytes, codes, ◌==◌, if◌then◌else◌,
  str_eq,
}
use re_co_mon_b.Cache.{Table, Entry, new, find, get, store}
use re_co_mon_b.Format.Names.{ConnectionType, tcp, udp, raw, unix, other_type}
use re_co_mon_b.Util.Text.{skip_spaces}

-- What `sscanf(ptr, "%s%d/%s", …) == 3` reads: the name, the port as the id of 64 bits that it is
-- converted to, and the protocol.
pub record Service : Type 0 where
  pub name : Bytes
  pub port : ℕ
  pub proto : Bytes

abbrev is_comment : Bytes → Bool
is_comment [] = true
is_comment (c ∷ ptr) = c == b'#'

-- `sscanf` on a line is an argument.
abbrev pub Scan : Type 0
Scan = Bytes → Option Service

-- The service of a line, if it is one of the protocol `type`.
abbrev pub of_type : Bytes → Option Service → Option Service
of_type type none = none
of_type type (some s) = if str_eq type s.proto then some s else none

unfoldable pub read_service : Scan → Bytes → Bytes → Option Service
unfolding skip_spaces str_eq
read_service scan type line =
    let ptr = skip_spaces line in if is_comment ptr then none else of_type type (scan ptr)

-- `if (!entry->value) entry->value = strdup(name)`.
abbrev pub fill : ℕ → Bytes → Table Bytes × Entry Bytes → Table Bytes
fill port name (names, entry) = elim entry.value [ none ↦ store names port name | some old ↦ names ]

-- The rest of a round.
unfoldable pub add_service : Table Bytes → Option Service → Table Bytes
unfolding get store
add_service names none = names
add_service names (some s) = fill s.port s.name (get names s.port)

-- The `while` of `net_services_parse` over the lines that `fgets` gives.
unfoldable pub parse_lines : Scan → Bytes → List Bytes → Table Bytes → Table Bytes
unfolding read_service add_service
parse_lines scan type [] names = names
parse_lines scan type (line ∷ lines) names =
    parse_lines scan type lines (add_service names (read_service scan type line))

-- `net_services_parse`; there are no lines where the file cannot be opened.
unfoldable pub net_services_parse : Scan → Option (List Bytes) → Bytes → Table Bytes → Table Bytes
unfolding parse_lines
net_services_parse scan none type names = names
net_services_parse scan (some lines) type names = parse_lines scan type lines names

-- The members of `sigar_t` that hold the caches.
pub record Caches : Type 0 where
  pub net_services_tcp : Option (Table Bytes)
  pub net_services_udp : Option (Table Bytes)

-- `if (*names == NULL) { … }`.
unfoldable pub loaded : Scan → Option (List Bytes) → Bytes → Option (Table Bytes) → Table Bytes
unfolding net_services_parse new
loaded scan file pname none = net_services_parse scan file pname (new 1024)
loaded scan file pname (some names) = names

abbrev pub value_of : Option (Entry Bytes) → Option Bytes
value_of none = none
value_of (some e) = e.value

-- `sigar_net_services_name_get`, with the file as it is when it is read.
unfoldable pub net_services_name_get :
    Scan → Option (List Bytes) → Caches → ConnectionType → ℕ → Caches × Option Bytes
unfolding loaded find
net_services_name_get scan file c tcp port =
    let names = loaded scan file (codes "tcp") c.net_services_tcp in
    (record c { net_services_tcp = some names }, value_of (find names port))
net_services_name_get scan file c udp port =
    let names = loaded scan file (codes "udp") c.net_services_udp in
    (record c { net_services_udp = some names }, value_of (find names port))
net_services_name_get scan file c _ port = (c, none)
