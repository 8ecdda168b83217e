-- ===== src/Osm/Regs.antt =====
-- The register map and the other numeric constants of clk-cpu-osm-660.c, by block.
mod Ctrl
mod Seq
mod Acd
mod Pll
mod Trace
pub use Ctrl.*
pub use Seq.*
pub use Acd.*
pub use Pll.*
pub use Trace.*
