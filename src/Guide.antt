-- ===== src/Guide.antt =====
-- The schedule guide of web/app.js: its channels and the moves between its cards.
mod Tests
pub mod Channels
pub mod Cards
pub mod Filters
