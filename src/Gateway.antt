-- ===== src/Gateway.antt =====
-- app.py, and the parts of plans.py and auth.py that its handlers use: who is calling, what a caller may
-- use, and the handlers of the engine routes and of sign-in.
pub mod Plans
pub mod Body
pub mod Window
pub mod Rates
pub mod Callers
pub mod Sessions
pub mod Tokens
pub mod Purposes
pub mod Emails
pub mod Providers
pub mod Authorize
pub mod Cookies
pub mod Shapes
pub mod Site
pub mod Account
pub mod Served
pub mod Guarded
pub mod Own
pub mod OAuth
pub mod Identity
pub mod Flow
pub mod Kept
pub mod Reach
pub mod Messages
pub mod Headers
pub mod Trust
pub mod Proxy
pub mod Slides
pub mod Events
pub mod Answers
pub mod Smtp
pub mod Waits
pub mod Mail
pub mod Issued
pub mod Links
pub mod Trials
pub mod TokenTests
pub mod HeaderTests
pub mod MailTests
pub mod Engine
pub mod Checkout
pub mod Payments
pub mod Redirects
pub mod Stream
pub mod Tail
pub mod SignIn
mod Tests
mod ReachTests
mod WaitTests
mod SiteTests
mod StreamTests
