-- ===== src/Authz.antt =====
-- toolroute_authz.go
pub mod Glob
pub mod Regex
pub mod Reading
pub mod Rules
pub mod Cel
pub mod Parsing
pub mod Shapes
pub mod Meaning
