-- ===== src/Tests.antt =====
-- Runs on concrete inputs, and the theorems at inputs that meet their hypotheses.
mod Toy
mod Util
mod Pack
mod Pbkdf2
mod Derivation
mod Asym
mod Rsa
mod App
mod Environment
mod Storage
mod Sym
mod Transport
mod SimpleCrypto
mod Loading
