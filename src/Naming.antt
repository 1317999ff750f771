-- ===== src/Naming.antt =====
-- Names that the connectors build and take apart: n2vc/n2vc_conn.py and n2vc/n2vc_juju_conn.py.
pub mod AppName
pub mod Namespace
pub mod EeId
