-- ===== src/Link.antt =====
-- The multiplayer link: platform/mp_peer_lobby.c, platform/mp.c, platform/sio.c.
pub mod Lobby
pub mod Registry
pub mod Sio
pub mod Loopback
pub mod Handler
mod Tests
