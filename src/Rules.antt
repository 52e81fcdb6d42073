-- ===== src/Rules.antt =====
-- The rules page of web/app.js: the form of a rule and the list of the rules.
mod Tests
pub mod Actions
pub mod Fields
pub mod Fill
pub mod Form
pub mod List
pub mod Options
