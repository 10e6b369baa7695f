-- ===== src/Clustercfg.antt =====
-- internal/clustercfg: how an encrypted or decrypted value is written into a configuration file. A
-- text is the list of its bytes.
pub mod Quoting
pub mod Endings
mod Examples
