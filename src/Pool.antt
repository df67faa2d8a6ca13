-- ===== src/Pool.antt =====
-- services/operator-backend/src/pool/index.ts: quotes, liquidity and redemption plans of a pool.
pub mod Quote
pub mod Liquidity
pub mod Swap
pub mod Binding
pub mod Acceptance
pub mod Views
pub mod Listing
pub mod Sides
pub mod Tolerance
pub mod Numerals
pub mod Curve
pub mod Deposit
pub mod Redeem
pub mod ProRata
