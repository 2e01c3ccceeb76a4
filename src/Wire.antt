-- ===== src/Wire.antt =====
-- contracts/v1/generated/contracts.py: the records of the two streams, byte for byte.
pub mod Struct
pub mod SubmitOrder
pub mod CancelOrder
pub mod CreateAccount
pub mod CreditCash
pub mod ConfigureReplay
pub mod OrderAccepted
pub mod OrderRejected
pub mod Fill
pub mod OrderCancelled
pub mod BookChanged
pub mod AccountCreated
pub mod CashCredited
pub mod ReplayConfigured
pub mod Any
