-- ===== src/Format/Services/First.antt =====
-- The services that sigar_format.c reads: the first line of a port names it.
use re_co_mon_b.Base.{
  or_else, or_else-none, or_else_assoc, ℕ, suc, ◌+◌, ◌*◌, ◌^◌, ◌<◌, ◌≡◌, refl, sym, ap, ◌∙◌, List,
  [], ◌∷◌, Option, none, some, Bytes, codes, arith, ◌==◌, ==_iff, if◌then◌else◌, Bool-cases, inl,
  inr, length,
}
use re_co_mon_b.Cache.{Table, Entry, new, find, get, store, u32}
use re_co_mon_b.Cache.Room.{HasRoom, weaken, fits, get-HasRoom, store-HasRoom}
use re_co_mon_b.Cache.Methods.{IsValid, get-Gets, new-IsValid, or_fresh}
use re_co_mon_b.Cache.Store.{find-store-get}
use re_co_mon_b.Format.Services.{
  Scan, Service, Caches, read_service, fill, add_service, parse_lines, net_services_parse, loaded,
  value_of, net_services_name_get,
}
use re_co_mon_b.Format.Names.{tcp}

abbrev named : ℕ → Option Service → Option Bytes
named port none = none
named port (some s) = if s.port == port then some s.name else none

-- The name that the first line for a port gives it.
abbrev pub first_name : Scan → Bytes → List Bytes → ℕ → Option Bytes
first_name scan type [] port = none
first_name scan type (line ∷ lines) port =
    or_else (named port (read_service scan type line)) (first_name scan type lines port)

-- What a round does to the names of a cache.
record Adds (more : ℕ) (t r : Table Bytes) (s : Option Service) : Type 0 where
  room : HasRoom more r
  reads : (q : ℕ) → value_of (find r q) ≡ or_else (value_of (find t q)) (named q s)

fresh-value : (port : ℕ) (o : Option (Entry Bytes)) → (or_fresh port o).value ≡ value_of o
fresh-value port none = refl
fresh-value port (some e) = refl

-- A name for a port that has none yet.
fill-new :
    (t : Table Bytes) (s : Service) (q : ℕ)
    → IsValid t
    → t.size * 2 + 1 < u32
    → value_of (find t s.port) ≡ none
    → value_of (find (store (get t s.port).0 s.port s.name) q)
      ≡ or_else (value_of (find t q)) (named q (some s))
fill-new t s q valid room empty =
    let written = find-store-get s.port s.name valid room q in
    elim (Bool-cases (s.port == q)) [
      | inl same ↦ rw (written, same, ← (==_iff s.port q).0 same, empty) refl
      | inr other ↦ rw (written, other) (sym (or_else-none (value_of (find t q))))
    ]

-- A port that has a name keeps it.
fill-old :
    (t : Table Bytes) (s : Service) (q : ℕ) (old : Bytes)
    → IsValid t
    → t.size * 2 + 1 < u32
    → (get t s.port).1.value ≡ some old
    → value_of (find t s.port) ≡ some old
    → value_of (find (get t s.port).0 q) ≡ or_else (value_of (find t q)) (named q (some s))
fill-old t s q old valid room entry has =
    let read = (get-Gets s.port valid room).reads q in
    elim (Bool-cases (s.port == q)) [
      | inl same ↦ rw (read, same, entry, ← (==_iff s.port q).0 same, has) refl
      | inr other ↦ rw (read, other) (sym (or_else-none (value_of (find t q))))
    ]

fill-Adds :
    {more : ℕ} (t : Table Bytes) (s : Service) (value : Option Bytes)
    → HasRoom (suc more) t
    → (get t s.port).1.value ≡ value
    → Adds more t (fill s.port s.name (get t s.port)) (some s)
fill-Adds t s none r e =
    let g = get-Gets s.port r.valid (fits r) in
    let empty : value_of (find t s.port) ≡ none =
      sym (fresh-value s.port (find t s.port)) ∙ ap (λ x. x.value) (sym g.returns) ∙ e in
    rw e (record {
      room = store-HasRoom (get t s.port).0 s.port s.name (get-HasRoom t s.port r);
      reads = λ q. fill-new t s q r.valid (fits r) empty;
    })
fill-Adds t s (some old) r e =
    let g = get-Gets s.port r.valid (fits r) in
    let has : value_of (find t s.port) ≡ some old =
      sym (fresh-value s.port (find t s.port)) ∙ ap (λ x. x.value) (sym g.returns) ∙ e in
    rw e (record {
      room = get-HasRoom t s.port r;
      reads = λ q. fill-old t s q old r.valid (fits r) e has;
    })

add_service-Adds :
    {more : ℕ} (t : Table Bytes) (s : Option Service)
    → HasRoom (suc more) t
    → Adds more t (add_service t s) s
unfolding add_service
add_service-Adds t none r = record {
  room = weaken r;
  reads = λ q. sym (or_else-none (value_of (find t q)));
}
add_service-Adds t (some s) r = fill-Adds t s (get t s.port).1.value r refl

parse_lines-names :
    (scan : Scan) (type : Bytes) (lines : List Bytes) (t : Table Bytes) (q : ℕ)
    → HasRoom (length lines) t
    → value_of (find (parse_lines scan type lines t) q)
      ≡ or_else (value_of (find t q)) (first_name scan type lines q)
unfolding parse_lines
parse_lines-names scan type [] t q r = sym (or_else-none (value_of (find t q)))
parse_lines-names scan type (line ∷ lines) t q r =
    let adds = add_service-Adds t (read_service scan type line) r in
    parse_lines-names scan type lines (add_service t (read_service scan type line)) q adds.room
    ∙ ap (λ x. or_else x (first_name scan type lines q)) (adds.reads q)
    ∙ or_else_assoc (value_of (find t q)) (named q (read_service scan type line))
        (first_name scan type lines q)

-- A cache made from a file.
fresh-names :
    (scan : Scan) (type : Bytes) (lines : List Bytes) (q : ℕ)
    → length lines < 2 ^ 28
    → value_of (find (parse_lines scan type lines (new 1024)) q) ≡ first_name scan type lines q
unfolding new
fresh-names scan type lines q few =
    let fresh = new-IsValid {V = Bytes} 1024 (omega arith) in
    parse_lines-names scan type lines (new 1024) q
      (record { valid = fresh.0; size = omega arith; count = omega (arith, few) })
    ∙ ap (λ x. or_else (value_of x) (first_name scan type lines q)) (fresh.2 q)

-- The first question for a TCP port is answered by the first line of the file that names the port
-- for TCP, where the file has less than 2 ^ 28 lines; the answer to a second question, of any
-- TCP port, is that of the file as it was at the first.
pub net_services_name_get-first :
    (scan : Scan) (lines : List Bytes) (later : Option (List Bytes)) (c : Caches) (port next : ℕ)
    → c.net_services_tcp ≡ none
    → length lines < 2 ^ 28
    → let (c1, answer) = net_services_name_get scan (some lines) c tcp port in
      (answer ≡ first_name scan (codes "tcp") lines port)
      × ((net_services_name_get scan later c1 tcp next).1
          ≡ first_name scan (codes "tcp") lines next)
unfolding net_services_name_get loaded net_services_parse
net_services_name_get-first scan lines later c port next e few =
    rw e
      (fresh-names scan (codes "tcp") lines port few, fresh-names scan (codes "tcp") lines next few)
