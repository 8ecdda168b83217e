-- ===== src/Osm.antt =====
-- The state and the bus of device-fixes/nura/cpufreq/clk-cpu-osm-660.c: the data types, the
-- register map, and the accesses through which the driver reaches the hardware. The names of the
-- first and the last are passed on.
pub mod Regs
mod Host
mod State
mod Io
mod Device
mod Tree
mod Update
pub mod Effect
pub mod Keeps
pub use Host.*
pub use State.*
unfoldable pub use Device.*
pub use Tree.*
pub use Update.*
unfoldable pub use Io.*
