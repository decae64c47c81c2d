-- ===== src/Orb.antt =====
-- src/orb/orb-core: what the broker makes of names and values.
pub mod Words
pub mod TypeCode
pub mod TypeCodes
pub mod Context
pub mod Value
pub mod Exceptions
pub mod Text
pub mod Url
pub mod CorbaLoc
mod Tests
