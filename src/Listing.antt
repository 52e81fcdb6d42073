-- ===== src/Listing.antt =====
-- The lists of the pages in web/app.js: filters, orders, categories and pages.
mod Tests
pub mod Programs
pub mod Pages
pub mod Search
