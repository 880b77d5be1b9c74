-- ===== src/Internal.antt =====
-- `internal` of simplecrypto.js: one function for each operation of WebCrypto.
pub mod Sym
pub mod Asym
pub mod Pbkdf2
