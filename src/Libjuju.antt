-- ===== src/Libjuju.antt =====
-- n2vc/libjuju.py: the class `Libjuju`, which connects to a controller and to a model for each
-- operation. The controller, its models and the database answer each call as a `Juju` says.
pub mod Connection
pub mod Member
pub mod Operations
pub mod Action
pub mod Balance
pub mod Opening
pub mod Frame
pub mod Leaks
pub mod Deploy
pub mod Missing
pub mod Unbound
pub mod Destroy
pub mod AddModel
