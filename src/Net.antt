-- ===== src/Net.antt =====
-- The directory `net/`: byte order and wire format, the internet checksum, TCP, ARP, IP, ICMP, UDP
-- and socket buffers.
pub mod Wire
pub mod Checksum
pub mod Tcp
pub mod Arp
pub mod Ipv4
pub mod Icmp
pub mod Udp
pub mod Skbuff
