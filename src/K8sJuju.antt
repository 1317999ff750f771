-- ===== src/K8sJuju.antt =====
-- n2vc/k8s_juju_conn.py: the connector that puts a juju controller into a cluster of Kubernetes.
pub mod Host
pub mod Frame
pub mod Keeps
pub mod Session
pub mod Commands
pub mod Controller
pub mod Environment
pub mod Deployment
pub mod Primitives
