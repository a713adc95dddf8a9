-- ===== src/Metric/ControlPlane/Agent.antt =====
-- The status of the agent as time passes.
use dbs_monitor.Prelude.{
  ℕ, ◌+◌, ◌≤◌, ◌≡◌, refl, ◌↔◌, String, true, false, arith, str_eq, eq_iff, is_zero_time,
}
use dbs_monitor.Metric.ControlPlane.{
  online, agent_offline_after, ControlPlaneFacts, agent_status_at,
}

-- An agent that reports nothing more goes from online to offline and stays there: if it is online at
-- some time it was online at every earlier time, given the same facts.
pub online_before :
    (facts : ControlPlaneFacts) (now earlier : ℕ)
    → earlier ≤ now
    → agent_status_at facts now ≡ online
    → agent_status_at facts earlier ≡ online
unfolding agent_status_at
online_before facts now earlier h e = ground arith

not_denied : (code : String) → code ≡ "" → str_eq code "PERMISSION_DENIED" ≡ false
not_denied code h = rw h refl

-- An agent is online exactly if it is expected, has no error code, and has reported no longer ago
-- than the limit.
pub agent_status_at-online_iff :
    (facts : ControlPlaneFacts) (now : ℕ)
    → (agent_status_at facts now ≡ online) ↔ (
        (facts.agent_expected ≡ true)
        × (facts.agent_last_error_code ≡ "")
        × (is_zero_time facts.agent_last_report_at ≡ false)
        × (now ≤ facts.agent_last_report_at + agent_offline_after))
unfolding agent_status_at
agent_status_at-online_iff facts now = (
  λ e. ground (arith, eq_iff facts.agent_last_error_code ""),
  λ h.
      ground (arith, eq_iff facts.agent_last_error_code "", not_denied facts.agent_last_error_code),
)
