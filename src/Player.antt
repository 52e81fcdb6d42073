-- ===== src/Player.antt =====
-- The video player of web/app.js: the query of a playback address, and the addresses themselves.
mod Tests
pub mod Query
pub mod Source
pub mod Timeline
pub mod Url
