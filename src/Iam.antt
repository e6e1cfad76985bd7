-- ===== src/Iam.antt =====
-- The provisioners of pkg/cfres/iam.
pub mod Membership
