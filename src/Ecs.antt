-- ===== src/Ecs.antt =====
-- The provisioner of AWS::ECS::Service, pkg/cfres/ecs.
pub mod Names
pub mod Classify
pub mod Elb
pub mod Timeout
pub mod Wrap
pub mod PhaseA
pub mod Endpoints
pub mod Reading
pub mod Final
pub mod PhaseB
pub mod Steps
