-- ===== src/Examples.antt =====
-- The theorems at concrete inputs.
mod Trading
mod Pricing
mod Submission
mod Swapping
mod Listings
mod Recovery
mod Security
mod Sessions
mod Orders
mod Quotes
