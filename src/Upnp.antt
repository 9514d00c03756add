-- ===== src/Upnp.antt =====
-- pkg/upnp: eventing (events) and discovery (ssdp).
pub mod Events
pub mod Ssdp
