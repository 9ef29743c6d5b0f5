-- ===== src/Antglob.antt =====
-- framework/jsoncpp/devtools/antglob.py: the search for files by Ant patterns that the release tools
-- of jsoncpp use.
pub mod Pattern
pub mod Walk
