-- ===== src/SconsTime.antt =====
-- framework/jsoncpp/scons-time.py: the timing of runs of the build tool, and the tables and graphs of
-- what was measured.
pub mod Plot
pub mod Names
pub mod Results
pub mod Commands
pub mod World
pub mod Unpack
pub mod Options
pub mod Subcommands
