-- ===== src/Tests.antt =====
-- The theorems at concrete inputs, and runs of the modelled code.
mod Naming
mod Status
mod Database
mod Observer
mod Watcher
mod Libjuju
mod Connector
mod Session
mod Helm
mod Releases
mod K8sJuju
mod Paramiko
mod Provisioner
