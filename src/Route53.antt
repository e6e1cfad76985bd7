-- ===== src/Route53.antt =====
-- The provisioner of AWS::Route53::RecordSet, pkg/cfres/route53/record_set.go.
pub mod Client
pub mod Names
pub mod Metadata
pub mod Reading
pub mod Steps
