-- ===== src/Tests/Sockets.antt =====
-- The theorems on network connections at concrete files, and runs on them.
use re_co_mon_b.Base.{true, false, ◌≡◌, refl, List, [], ◌∷◌, none, some, Bytes, codes, inl}
use re_co_mon_b.Format.Address.{inet, inet6}
use re_co_mon_b.Format.Names.{tcp}
use re_co_mon_b.Linux.Net.Walk.{
  end, passed, taken, Listed, net_connection_list_get-files, net_connection_get-last_file,
}
use re_co_mon_b.Linux.Net.Owner.{Process, proc_port_get}
use re_co_mon_b.Linux.Net.{
  Connection, Flags, NetFiles, read_line, net_connection_list_get, net_connection_get,
}
use re_co_mon_b.Linux.Run.{done}
use re_co_mon_b.Ptql.Host.{got, failed}

abbrev servers : Flags
servers = record { client = false; server = true; tcp = true; udp = false; raw = false }

abbrev listening : Bytes
listening =
    codes
      "   0: 0100007F:1F90 00000000:0000 0A 00000000:00000000 00:00000000 00000000  1000        0 4242 1"

abbrev established : Bytes
established =
    codes
      "   1: 0100007F:1F90 0200007F:0050 01 00000001:000000FF 00:00000000 00000000  1000        0 4343 1"

abbrev listening6 : Bytes
listening6 =
    codes
      "   0: 000000000000000000000000AB000000:1F90 00000000000000000000000000000000:0000 0A 00000000:00000000 00:00000000 00000000     0        0 4444 1"

abbrev at_8080 : Connection
at_8080 = record {
  local_port = 8080;
  local_address = inet 16777343;
  remote_port = 0;
  remote_address = inet 0;
  type = tcp;
  state = 10;
  send_queue = 0;
  receive_queue = 0;
  uid = 1000;
  inode = 4242;
}

abbrev at6_8080 : Connection
at6_8080 = record at_8080 {
  local_address = inet6 (0 ∷ 0 ∷ 0 ∷ 0 ∷ 0 ∷ 0 ∷ 0 ∷ 0 ∷ 0 ∷ 0 ∷ 0 ∷ 0 ∷ 0 ∷ 0 ∷ 0 ∷ 171 ∷ []);
  remote_address = inet6 (0 ∷ 0 ∷ 0 ∷ 0 ∷ 0 ∷ 0 ∷ 0 ∷ 0 ∷ 0 ∷ 0 ∷ 0 ∷ 0 ∷ 0 ∷ 0 ∷ 0 ∷ 0 ∷ []);
  uid = 0;
  inode = 4444;
}

read_line_test : read_line servers tcp listening ≡ done (some at_8080)
unfolding read_line
read_line_test = refl

established_test : read_line servers tcp established ≡ done none
unfolding read_line
established_test = refl

read_line6_test : read_line servers tcp listening6 ≡ done (some at6_8080)
unfolding read_line
read_line6_test = refl

abbrev files : NetFiles
files = record {
  tcp = got (established ∷ listening ∷ []);
  tcp6 = got (listening6 ∷ []);
  udp = failed 2;
  udp6 = failed 2;
  raw = failed 2;
  raw6 = failed 2;
}

files-Listed : Listed servers 2 files (at_8080 ∷ []) (at6_8080 ∷ []) [] [] [] []
files-Listed = record {
  of_tcp = (
    record {
      lines = established ∷ listening ∷ [];
      opens = refl;
      reads = passed established_test (taken read_line_test end);
    },
    inl (record { lines = listening6 ∷ []; opens = refl; reads = taken read_line6_test end }),
  );
  of_udp = (refl, refl);
  of_raw = (refl, refl);
}

net_connection_list_get-files_example :
    net_connection_list_get 2 servers files ≡ done (got (at_8080 ∷ at6_8080 ∷ []))
net_connection_list_get-files_example =
    net_connection_list_get-files 2 servers files (at_8080 ∷ []) (at6_8080 ∷ []) [] [] [] []
      files-Listed

net_connection_get-last_file_example :
    net_connection_get 2 8080 servers files ≡ done (some at6_8080, 0)
net_connection_get-last_file_example =
    net_connection_get-last_file 2 8080 servers files (at_8080 ∷ []) (at6_8080 ∷ []) [] [] [] []
      files-Listed

abbrev procs : List Process
procs =
    record { name = codes "self"; uid = some 0; fds = none }
    ∷ record { name = codes "77"; uid = some 1000; fds = some ((codes "3", some 4444) ∷ []) }
    ∷ record {
      name = codes "88";
      uid = some 0;
      fds = some ((codes "0", some 1) ∷ (codes "3", some 4444) ∷ []);
    }
    ∷ []

-- The process behind the connection of the last file is found.
proc_port_get_test : proc_port_get 2 8080 servers files (got procs) ≡ done (got 88)
unfolding proc_port_get
proc_port_get_test = refl
