-- ===== src/Net/Udp/Tests.antt =====
-- The theorems on `net/udp.c` at a table with one bucket of two sockets.
use johnbeauty_os.Prelude.{true, false, [], ◌∷◌}
use johnbeauty_os.Net.Ipv4.{Datagram}
use johnbeauty_os.Net.Udp.{Socket, Provider}

abbrev client : Socket
client = record {
  remote_port = 13568;
  remote_ip = 200;
  local_port = 1024;
  local_ip = 100;
  bound = true;
  listening = false;
}

abbrev server : Socket
server = record {
  remote_port = 1024;
  remote_ip = 100;
  local_port = 13568;
  local_ip = 200;
  bound = true;
  listening = false;
}

-- A listening socket on another port.
abbrev listener : Socket
listener = record {
  remote_port = 0;
  remote_ip = 0;
  local_port = 17152;
  local_ip = 200;
  bound = true;
  listening = true;
}

abbrev table : Provider
table = record {
  buckets = λ _. server ∷ listener ∷ [];
  mask = 63;
  num_sockets = 2;
  free_port = 1024;
  ip_address = 200;
}

-- A datagram of one byte to the listening socket, and one to a port that no socket has.
abbrev greeting : Datagram
greeting = record {
  src_ip = 100;
  dst_ip = 200;
  protocol = 17;
  bytes = 0 ∷ 4 ∷ 0 ∷ 67 ∷ 0 ∷ 9 ∷ 0 ∷ 0 ∷ 42 ∷ [];
}

abbrev stray : Datagram
stray = record greeting { bytes = 0 ∷ 4 ∷ 0 ∷ 99 ∷ 0 ∷ 8 ∷ 0 ∷ 0 ∷ [] }

abbrev greeted : Socket
greeted = record listener { remote_ip = 100; remote_port = 1024 }
