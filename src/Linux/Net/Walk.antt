-- ===== src/Linux/Net/Walk.antt =====
-- os/linux/linux_sigar.c: the connections that a walk over the files of /proc/net comes to.
use re_co_mon_b.Base.{
  ℕ, ◌≡◌, refl, sym, ap, ◌∙◌, Bool, true, false, List, [], ◌∷◌, ◌++◌, Option, none, some, Bytes,
  ◌==◌, if◌then◌else◌, Bool-cases, inl, inr, or_else, ◌⊎◌, ==_refl,
}
use mathlib.Core.List.{append_assoc, append-nil}
use re_co_mon_b.Format.Names.{ConnectionType, tcp, udp, raw}
use re_co_mon_b.Linux.Net.{
  Connection, Flags, Walker, File, NetFiles, read_line, read_lines, proc_net_read, unless_missing,
  walk_files, net_connection_walk, add_to_list, has_port, keep_port, net_connection_get,
  net_connection_list_get,
}
use re_co_mon_b.Linux.Run.{done}
use re_co_mon_b.Ptql.Host.{got, failed}

module _ (flags : Flags) where
  -- The lines are read as the connections, those that are passed over left out.
  pub data Reads (type : ConnectionType) : List Bytes → List Connection → Type 0 where
    end : Reads type [] []
    passed :
        {line : Bytes} {lines : List Bytes} {conns : List Connection}
        → read_line flags type line ≡ done none
        → Reads type lines conns
        → Reads type (line ∷ lines) conns
    taken :
        {line : Bytes} {lines : List Bytes} {conn : Connection} {conns : List Connection}
        → read_line flags type line ≡ done (some conn)
        → Reads type lines conns
        → Reads type (line ∷ lines) (conn ∷ conns)

  read_lines-list :
      {type : ConnectionType} {lines : List Bytes} {conns : List Connection}
      (seen : List Connection)
      → Reads type lines conns
      → read_lines add_to_list flags type seen lines ≡ done (seen ++ conns)
  unfolding read_lines
  read_lines-list seen end = ap done (sym (append-nil seen))
  read_lines-list seen (passed e r) = rw e (read_lines-list seen r)
  read_lines-list seen (taken {conn = conn} {conns = conns} e r) =
      rw e (read_lines-list (seen ++ conn ∷ []) r ∙ ap done (append_assoc seen (conn ∷ []) conns))

  -- The first connection of the list that has the port and is no connection to another.
  abbrev pub first_at : ℕ → List Connection → Option Connection
  first_at port [] = none
  first_at port (conn ∷ conns) = if has_port port conn then some conn else first_at port conns

  read_lines-first :
      {type : ConnectionType} {lines : List Bytes} {conns : List Connection} (port : ℕ)
      (kept : Option Connection)
      → Reads type lines conns
      → read_lines (keep_port port) flags type kept lines
        ≡ done (or_else (first_at port conns) kept)
  unfolding read_lines
  read_lines-first port kept end = refl
  read_lines-first port kept (passed e r) = rw e (read_lines-first port kept r)
  read_lines-first port kept (taken {conn = conn} e r) = elim (Bool-cases (has_port port conn)) [
    | inl hit ↦ rw (e, hit) refl
    | inr miss ↦ rw (e, miss) (read_lines-first port kept r)
  ]

  -- A file that opens and is read as the connections.
  pub record IsFile (type : ConnectionType) (file : File) (conns : List Connection) : Type 0 where
    pub lines : List Bytes
    pub opens : file ≡ got lines
    pub reads : Reads type lines conns

  -- A file for IPv6, which need not be there.
  abbrev pub IsFile6 : ℕ → ConnectionType → File → List Connection → Type 0
  IsFile6 enoent type file conns = IsFile type file conns ⊎ ((file ≡ failed enoent) × (conns ≡ []))

  -- The two files of a protocol, which are not looked at where its flag is not set.
  abbrev pub AreFiles :
      ℕ → Bool → ConnectionType → File → File → List Connection → List Connection → Type 0
  AreFiles enoent true type file file6 conns conns6 =
      IsFile type file conns × IsFile6 enoent type file6 conns6
  AreFiles enoent false type file file6 conns conns6 = (conns ≡ []) × (conns6 ≡ [])

  -- What the files of /proc/net are read as.
  pub record Listed (enoent : ℕ) (files : NetFiles) (t t6 u u6 r r6 : List Connection)
      : Type 0 where
    pub of_tcp : AreFiles enoent flags.tcp tcp files.tcp files.tcp6 t t6
    pub of_udp : AreFiles enoent flags.udp udp files.udp files.udp6 u u6
    pub of_raw : AreFiles enoent flags.raw raw files.raw files.raw6 r r6

  -- A walker that takes the connections of a file by `f`.
  module _ {S : Type 0} (walker : Walker S) (f : S → List Connection → S)
      (takes : (type : ConnectionType) (lines : List Bytes) (conns : List Connection) (s : S)
        → Reads type lines conns
        → read_lines walker flags type s lines ≡ done (f s conns))
      (nothing : (s : S) → f s [] ≡ s) where
    proc_net_read-file :
        (type : ConnectionType) (file : File) (conns : List Connection) (s : S)
        → IsFile type file conns
        → proc_net_read walker flags type s file ≡ done (f s conns, 0)
    unfolding proc_net_read
    proc_net_read-file type file conns s h = rw (h.opens, takes type h.lines conns s h.reads) refl

    missing-ok : (enoent : ℕ) (s : S) → unless_missing walker flags enoent (s, enoent) ≡ (s, 0)
    missing-ok enoent s = elim (Bool-cases (enoent == 0)) [
      | inl zero_status ↦ rw zero_status refl
      | inr other ↦ rw (other, ==_refl enoent) refl
    ]

    walk_files-files :
        (enoent : ℕ) (b : Bool) (type : ConnectionType) (file file6 : File)
        (conns conns6 : List Connection) (s : S)
        → AreFiles enoent b type file file6 conns conns6
        → walk_files walker flags enoent b type file file6 s ≡ done (f (f s conns) conns6, 0)
    unfolding walk_files
    walk_files-files enoent false type file file6 conns conns6 s (e, e6) =
        rw (e, e6, nothing s, nothing s) refl
    walk_files-files enoent true type file file6 conns conns6 s (h, inl h6) =
        rw
          (
            proc_net_read-file type file conns s h,
            proc_net_read-file type file6 conns6 (f s conns) h6,
          )
          refl
    walk_files-files enoent true type file file6 conns conns6 s (h, inr (missing, e6)) =
        rw (proc_net_read-file type file conns s h, missing, e6, nothing (f s conns))
          (unfold proc_net_read in ap done (missing-ok enoent (f s conns)))

    net_connection_walk-files :
        (enoent : ℕ) (files : NetFiles) (t t6 u u6 r r6 : List Connection) (s : S)
        → Listed enoent files t t6 u u6 r r6
        → net_connection_walk walker flags enoent files s
          ≡ done (f (f (f (f (f (f s t) t6) u) u6) r) r6, 0)
    unfolding net_connection_walk
    net_connection_walk-files enoent files t t6 u u6 r r6 s h =
        rw
          (
            walk_files-files enoent flags.tcp tcp files.tcp files.tcp6 t t6 s h.of_tcp,
            walk_files-files enoent flags.udp udp files.udp files.udp6 u u6 _ h.of_udp,
            walk_files-files enoent flags.raw raw files.raw files.raw6 r r6 _ h.of_raw,
          )
          refl

-- Where the files can be read, but for those for IPv6, which need not be there, the list of
-- connections is that of the wanted lines of each file of the protocols asked for: TCP, UDP and
-- raw, for IPv4 and then for IPv6, in the order of the lines.
pub net_connection_list_get-files :
    (enoent : ℕ) (flags : Flags) (files : NetFiles) (t t6 u u6 r r6 : List Connection)
    → Listed flags enoent files t t6 u u6 r r6
    → net_connection_list_get enoent flags files
      ≡ done (got (((((t ++ t6) ++ u) ++ u6) ++ r) ++ r6))
unfolding net_connection_list_get
net_connection_list_get-files enoent flags files t t6 u u6 r r6 h =
    rw
      (net_connection_walk-files flags add_to_list (λ seen conns. seen ++ conns)
        (λ type lines conns seen reads. read_lines-list flags seen reads) append-nil enoent files t
        t6 u u6 r r6 [] h)
      refl

abbrev keep_first : Flags → ℕ → Option Connection → List Connection → Option Connection
keep_first flags port kept conns = or_else (first_at flags port conns) kept

-- The search for a port comes to the first connection that has it in the last of the files that
-- have one, raw before UDP before TCP and IPv6 before IPv4: the walker ends the loop over a file,
-- and the walk goes on with the next file, whose connection takes the place of the one found.
pub net_connection_get-last_file :
    (enoent port : ℕ) (flags : Flags) (files : NetFiles) (t t6 u u6 r r6 : List Connection)
    → Listed flags enoent files t t6 u u6 r r6
    → let first = first_at flags port in
      net_connection_get enoent port flags files
      ≡ done (
        or_else (first r6) (
            or_else (first r) (
              or_else
                (first u6)
                (or_else (first u) (or_else (first t6) (or_else (first t) none))))),
        0,
      )
unfolding net_connection_get
net_connection_get-last_file enoent port flags files t t6 u u6 r r6 h =
    net_connection_walk-files flags (keep_port port) (keep_first flags port)
      (λ type lines conns kept reads. read_lines-first flags port kept reads) (λ kept. refl) enoent
      files t t6 u u6 r r6 none h
