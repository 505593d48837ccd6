-- ===== src/Tests/Caches.antt =====
-- The theorems on caches at concrete inputs.
use re_co_mon_b.Base.{
  ℕ, ◌+◌, ◌≡◌, refl, List, [], ◌∷◌, none, some, Bytes, codes, arith, ◌==◌, if◌then◌else◌, str_eq,
}
use re_co_mon_b.Cache.{Table, new, find, get, store, rehash, destroy}
use re_co_mon_b.Cache.Methods.{IsValid, Gets, added, get-Gets, new-IsValid}
use re_co_mon_b.Cache.Rehash.{Rehashed, rehash-Rehashed}
use re_co_mon_b.Cache.Release.{node_frees, freed_values, values_all, destroy_lem}
use re_co_mon_b.Cache.Store.{find-store-get}
use re_co_mon_b.Format.Names.{tcp}
use re_co_mon_b.Format.Services.{Scan, Caches, net_services_name_get}
use re_co_mon_b.Format.Services.First.{first_name, net_services_name_get-first}

abbrev fresh : Table ℕ
fresh = record { count = 0; size = 3; entries = [] ∷ [] ∷ [] ∷ [] }

fresh-IsValid : IsValid fresh
unfolding new
fresh-IsValid = (new-IsValid {V = ℕ} 3 (omega arith)).0

get-Gets_example : Gets fresh 7 (get fresh 7)
get-Gets_example = get-Gets 7 fresh-IsValid (omega arith)

rehash-Rehashed_example : Rehashed fresh (rehash fresh)
rehash-Rehashed_example = rehash-Rehashed fresh-IsValid.shaped (omega arith)

find-store-get_example :
    find (store (get fresh 7).0 7 42) 7
    ≡ (if 7 == 7 then some (record { id = 7; value = some 42 }) else find fresh 7)
find-store-get_example = find-store-get 7 42 fresh-IsValid (omega arith) 7

destroy_example :
    ((q : ℕ) → node_frees q (destroy fresh) + added (find fresh q) ≡ 1)
    × (freed_values (destroy fresh) ≡ values_all fresh.entries)
destroy_example = destroy_lem fresh-IsValid

-- A file of two lines, whose second names the port of the first again.
abbrev lines : List Bytes
lines = codes "ssh 22/tcp" ∷ codes "other 22/tcp" ∷ []

abbrev scan : Scan
scan line =
    if str_eq line (codes "ssh 22/tcp")
    then some (record { name = codes "ssh"; port = 22; proto = codes "tcp" })
    else if str_eq line (codes "other 22/tcp")
    then some (record { name = codes "other"; port = 22; proto = codes "tcp" })
    else none

abbrev no_caches : Caches
no_caches = record { net_services_tcp = none; net_services_udp = none }

net_services_name_get-first_example :
    let (c1, answer) = net_services_name_get scan (some lines) no_caches tcp 22 in
    (answer ≡ first_name scan (codes "tcp") lines 22)
    × ((net_services_name_get scan none c1 tcp 80).1 ≡ first_name scan (codes "tcp") lines 80)
net_services_name_get-first_example =
    net_services_name_get-first scan lines none no_caches 22 80 refl (omega arith)
