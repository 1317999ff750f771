-- ===== src/Helm.antt =====
-- n2vc/k8s_helm_conn.py: the connector that drives the command lines of kubectl and helm.
pub mod Environment
pub mod Host
pub mod Operations
pub mod Releases
pub mod Output
pub mod Release
pub mod Repos
