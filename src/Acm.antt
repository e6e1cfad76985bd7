-- ===== src/Acm.antt =====
-- The provisioner of AWS::CertificateManager::Certificate, pkg/cfres/certificatemanager.
pub mod Client
pub mod Tags
pub mod Reading
pub mod Steps
