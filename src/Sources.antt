-- ===== src/Sources.antt =====
-- Repository paths, Git sources, network identities and ref names of tools/validate.py.
pub mod Git
pub mod Below
pub mod Accepted
pub mod Effective
pub mod Names
pub mod Kept
