-- ===== src/Credential.antt =====
-- src/domain/credential, src/application/authentication, credential and api-key, the principal
-- resolver, and the in-memory stores of credentials and keys.
pub mod Session
pub mod Keys
pub mod Store
pub mod Tokens
pub mod Sessions
pub mod Issuing
pub mod Principal
