-- ===== src/Provisioner.antt =====
-- n2vc/provisioner.py: the preparation of a machine for juju, over ssh.
pub mod Hardware
pub mod Paramiko
pub mod Ssh
