-- ===== src/Net/Dpdk.antt =====
-- src/net/dpdk_adapter.rs, with the feature `dpdk` as a parameter. The methods of the adapter are
-- placeholders in the source; instructions and log messages are left out.
pub mod HugePages
use rust_kernel_engine.Base.{
  ℕ, ◌-◌, ◌^◌, List, [], ◌∷◌, Bool, true, false, Option, none, some, Outcome, ok, err,
  dpdk_disabled, ltb, get_elem?, if◌then◌else◌,
}
use rust_kernel_engine.Std.Keys.{Text}
use rust_kernel_engine.Std.Numbers.{from_str_radix}
use rust_kernel_engine.Std.Str.{codes}
use rust_kernel_engine.Std.Words.{starts_with, lines, split_whitespace}

pub record DpdkAdapter : Type 0 where
  pub port_id : ℕ
  pub queue_id : ℕ
  pub initialized : Bool

pub record DpdkPacket : Type 0 where
  pub bytes : List ℕ
  pub len : ℕ

unfoldable pub new : (feature : Bool) (port_id queue_id : ℕ) → Outcome DpdkAdapter
new feature port_id queue_id =
    if feature
    then ok (record { port_id = port_id; queue_id = queue_id; initialized = false })
    else err dpdk_disabled

unfoldable pub configure_port : DpdkAdapter → Outcome (Unit {0}) × DpdkAdapter
configure_port self = (ok tt, self)

unfoldable pub start : DpdkAdapter → Outcome (Unit {0}) × DpdkAdapter
start self = (ok tt, record self { initialized = true })

unfoldable pub rx_burst : ℕ → DpdkAdapter → Outcome (List DpdkPacket) × DpdkAdapter
rx_burst max_packets self = (ok [], self)

unfoldable pub tx_burst : List DpdkPacket → DpdkAdapter → Outcome ℕ × DpdkAdapter
tx_burst packets self = (ok 0, self)

unfoldable pub free_packets : List DpdkPacket → DpdkAdapter → Outcome (Unit {0}) × DpdkAdapter
free_packets packets self = (ok tt, self)

-- The number of huge pages that a line of `/proc/meminfo` states.
abbrev pub count_of : Text → Option ℕ
count_of line =
    if starts_with line (codes "HugePages_Total:")
    then elim (get_elem? (split_whitespace line) 1) [
      | none ↦ none
      | some count ↦ from_str_radix 10 (2 ^ 32 - 1) count
    ]
    else none

-- The loop over the lines: the first line with a number decides.
lines_loop : List Text → Bool
lines_loop [] = false
lines_loop (line ∷ rest) =
    let later = lines_loop rest in elim (count_of line) [ none ↦ later | some n ↦ ltb 0 n ]

unfoldable pub check_dpdk_available : (feature : Bool) → (meminfo : Option Text) → Bool
unfolding lines_loop
check_dpdk_available false meminfo = false
check_dpdk_available true none = false
check_dpdk_available true (some content) = lines_loop (lines content)
