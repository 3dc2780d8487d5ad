-- ===== src/Ros.antt =====
-- src/routeros_api.c: the binary RouterOS API.
pub mod Socket
pub mod Frame
pub mod Sentence
pub mod Command
pub mod Session
