-- ===== src/Loading.antt =====
-- What web/app.js loads in the background, and how it waits for answers.
mod Tests
pub mod Operational
pub mod ProgramData
pub mod ViewData
pub mod Logos
pub mod Confirm
pub mod Refresh
