-- ===== src/Subtitles.antt =====
-- Live subtitles of web/app.js.
mod Tests
pub mod Stream
