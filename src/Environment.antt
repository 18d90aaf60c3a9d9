-- ===== src/Environment.antt =====
-- Environments of tools/validate.py: the order of the contexts of a lock, the modules and servers
-- that apply to an environment, the admission of system modules, and the files.
pub mod Kahn
pub mod Order
pub mod Acyclic
pub mod Weights
pub mod Contexts
pub mod Emitted
pub mod Toml
pub mod TomlReader
pub mod Modules
pub mod Direct
pub mod Offers
pub mod Admission
