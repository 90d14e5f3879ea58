-- ===== src/Tests/Serialize.antt =====
-- A concrete serde_json and base64, and serialize.rs run with it.
pub mod Machine
pub mod Instance
mod RoundTrips
