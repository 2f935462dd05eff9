-- ===== src/Upnp.antt =====
-- pkg/upnp: what the other parts see of the mappings that a router holds.
pub mod Mapping
