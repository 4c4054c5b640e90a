-- ===== src/Params.antt =====
-- params/src/lib.rs and params/src/parse.rs: what a plan declares of its parameters, the check of
-- the values given for them with the rewriting of paths, and the parser of a resource's fields.
pub mod Value
pub mod Maps
pub mod Schema
pub mod Declare
pub mod Coerce
pub mod Typed
pub mod Retyped
pub mod Lookups
pub mod Walked
pub mod Kept
pub mod Stable
pub mod Conforms
pub mod Cases
pub mod Validated
pub mod Parse
pub mod Fields
pub mod Reads
pub mod Held
pub mod Given
pub mod Agreed
pub mod Declared
mod Tests
