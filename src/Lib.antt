-- ===== src/Lib.antt =====
-- The CPU clock driver of the Mi Pad 4's kernel, device-fixes/nura/cpufreq/clk-cpu-osm-660.c, which
-- programs the Operating State Manager (OSM) of the two CPU clusters and asks it for performance
-- states.
--
-- The parts and their files:
--   Base    numbers, C's machine words and arrays, and laws of the bit operations.
--   Osm     the state: the two static clocks `pwrcl_clk` and `perfcl_clk` (`ClkOsm`), the constants
--           (Regs), and the register helpers (Io). An operation is a function from the state to a
--           result and the state after it; every access to the hardware is logged in order, and so
--           are the calls of the kernel that are not reads (Host has what the platform answers).
--           Effect has the runs that the bus alone shows, and what they make of one register; Keeps
--           the runs that leave a part of the state as it was.
--   Rates   clk_osm_list_rate, clk_osm_determine_rate, clk_osm_search_table, clk_osm_set_rate,
--           clk_osm_recalc_rate: what cpufreq calls.
--   Acd     the transfers of the clock distribution block, clk_osm_acd_init and clk_osm_enable;
--           Answers has what hardware is when it answers a transfer that was started.
--   Lut     clk_osm_get_lut: the table of a cluster from the device tree.
--   HwTable clk_osm_setup_hw_table: the table in the hardware's registers.
--   Corners clk_osm_resolve_open_loop_voltages and clk_osm_resolve_crossover_corners.
--   MemAcc  clk_osm_program_mem_acc_regs.
--   Setup   the sequencer's image, clk_osm_do_additional_setup, clk_osm_apm_vc_setup and the PLL.
--   Cycle   the cycle counter, and clk_osm_debug_irq_cb.
--   Policy, Fsm   clk_osm_set_cc_policy, the two llm policies, clk_osm_setup_fsms.
--   Trace   the debugfs files.
--   Config  clk_osm_parse_dt_configs.
--   Opp     find_voltage and add_opp.
--   Resources     clk_osm_resources_init.
--   Registration  clk_osm_setup_irq, populate_opp_table, populate_debugfs_dir, the panic notifier, and
--                 logical_cpu_to_clk with its static array (CpuMap).
--   Probe   clk_cpu_osm_driver_probe: the order of all of these, and what it undoes.
--   Sample, Tests   a concrete cluster, and the theorems at concrete inputs.
-- Lut fills the rows that Corners gives their voltages, HwTable and MemAcc send to the hardware, Opp
-- registers and Rates searches; Config and Resources set the fields that the set-up functions read,
-- and Probe runs them all.
--
-- Conventions. A return of `-e` is `err e`; what C leaves undefined, an access outside an array or a
-- division by 0, is `fault`. An `int` that may be negative is its 32-bit pattern. The hardware is a
-- function from the accesses so far and an address to the value read; the device tree, the
-- regulators and the allocator are parameters in `Env`, and `dev_pm_opp_add` is an argument.
-- Bounds: the loops are recursion over the rows or the rounds that the source counts; only the loop
-- `bitmask &= bitmask - 1` runs on fuel, 33 tests, which is enough for 32 bits.
--
-- The clock framework of the kernel, which calls the operations of Rates and Acd, is an argument of
-- the probe: two functions from a clock to a run, and the disabling as a function of the state.
--
-- Not modelled: printing, clk_osm_print_osm_table among it; the registration of the driver itself;
-- the locks, which are held around the whole of a counter's read and of a copy from the user; the
-- checks of a debug file's handle; and the rest of the repository,
-- which is patches, device trees, scripts, Python tools and documents.
pub mod Base
pub mod Osm
pub mod Rates
pub mod Acd
pub mod Lut
pub mod HwTable
pub mod Corners
pub mod MemAcc
pub mod Setup
pub mod Cycle
pub mod Policy
pub mod Fsm
pub mod Trace
pub mod Config
pub mod Opp
pub mod Resources
pub mod Registration
pub mod Probe
pub mod Sample
pub mod Tests
