-- ===== src/Ec2.antt =====
-- The provisioners of pkg/cfres/ec2.
pub mod Route
