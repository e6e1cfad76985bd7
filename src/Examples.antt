-- ===== src/Examples.antt =====
-- The theorems at concrete inputs, and runs of the definitions.
pub mod Codecs
pub mod Clouds
pub mod Services
pub mod Certificates
pub mod Records
pub mod Balancers
pub mod Images
pub mod Members
pub mod Routes
