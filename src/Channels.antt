-- ===== src/Channels.antt =====
-- src/registry/reverse-channel.mjs: data channels of nodes and the HTTP flows over them.
pub mod Body
pub mod Steps
pub mod Delivery
pub mod Budget
pub mod Pool
pub mod Pressure
pub mod Claims
pub mod Capacity
mod Tests
use dsh_orbit.Common.{ℕ, ◌*◌}

-- `this.limits` of the manager.
pub record Limits : Type 0 where
  pub frame_max_bytes : ℕ
  pub soft_mark_bytes : ℕ
  pub resume_below_bytes : ℕ
  pub hard_cap_bytes : ℕ
  pub stall_timeout_ms : ℕ

abbrev pub default_limits : Limits
default_limits = record {
  frame_max_bytes = 64 * 1024;
  soft_mark_bytes = 512 * 1024;
  resume_below_bytes = 256 * 1024;
  hard_cap_bytes = 2 * 1024 * 1024;
  stall_timeout_ms = 30000;
}
