-- ===== src/Pages.antt =====
-- pages.py: the HTML pages that the gateway serves itself.
pub mod Escape
pub mod Template
pub mod Markup
pub mod Closed
pub mod Page
pub mod Sections
pub mod Safe
pub mod Layout
pub mod Forms
pub mod Legal
pub mod Billing
pub mod Account
mod Tests
