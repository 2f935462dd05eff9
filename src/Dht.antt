-- ===== src/Dht.antt =====
-- pkg/dht: enough of the BitTorrent mainline DHT to leave an address under a key and to find one.
pub mod Bencode
pub mod Node
pub mod Lookup
pub mod Client
pub mod Announce
