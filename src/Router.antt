-- ===== src/Router.antt =====
-- The TLM router, systemc-components/router/include/router.h, and what it takes from
-- systemc-components/common/include/router_if.h.
pub mod Target
pub mod AddressMap
pub mod Cache
pub mod Dmi
pub mod Transport
pub mod Samples
mod Tests
