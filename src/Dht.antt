-- ===== src/Dht.antt =====
-- kemi/dht.py: the distributed hash table's node.
pub mod Contacts
pub mod Routing
pub mod Lookup
pub mod Storage
pub mod Exchange
mod Tests
