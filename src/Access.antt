-- ===== src/Access.antt =====
-- Who may act where: src/domain/{membership,person,tenant,access}, src/application's actor and
-- authorisation, and the in-memory identity store that they read.
pub mod Role
pub mod Identifiers
pub mod Entities
pub mod Decision
pub mod Directory
pub mod Authorize
