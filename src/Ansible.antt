-- ===== src/Ansible.antt =====
-- internal/ansibleinv: the translation of an Ansible inventory into the hosts of a cluster.
pub mod Roles
pub mod Vars
