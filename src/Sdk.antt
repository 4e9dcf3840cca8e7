-- ===== src/Sdk.antt =====
-- The package sdk/: the intent, its validation, and the texts and numbers that it is made of.
pub mod Types
pub mod Expiry
pub mod Stellar
pub mod Decimal
pub mod Json
pub mod Validate
pub mod Intent
pub mod Signature
pub mod Bytes
pub mod Client
pub mod Units
pub mod OnChain
pub mod EscrowClient
