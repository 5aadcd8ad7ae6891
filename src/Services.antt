-- ===== src/Services.antt =====
-- Dependencies/VoodooI2CServices: the registry plane of the services, and the logger; and
-- Dependencies/helpers.cpp.
pub mod Plane
pub mod Helpers
