-- ===== src/Vocab.antt =====
-- src/ipe/core/vocab.py: the closed vocabularies of queue classes and of states. The strings are
-- constructors; `unlisted` stands for any string outside the vocabulary that a caller may pass.
use one_m2m_dds_ipe.Prelude.{String, Bool, true, false, ◌||◌}

pub data OutboundClass : Type 0 where
  terminal observe_latest observe_bulk : OutboundClass
  unlisted : String → OutboundClass

unfoldable pub outbound_classes : OutboundClass → Bool
outbound_classes (unlisted s) = false
outbound_classes _ = true

pub data ProcessedState : Type 0 where
  queued dispatched overflow : ProcessedState
  succeeded failed expired rejected duplicate invalid : ProcessedState
  access_denied canceled unknown shutting_down shutdown_abandoned : ProcessedState
  unlisted : String → ProcessedState

unfoldable pub processed_active_states : ProcessedState → Bool
processed_active_states queued = true
processed_active_states dispatched = true
processed_active_states overflow = true
processed_active_states _ = false

unfoldable pub processed_terminal_states : ProcessedState → Bool
processed_terminal_states queued = false
processed_terminal_states dispatched = false
processed_terminal_states overflow = false
processed_terminal_states (unlisted s) = false
processed_terminal_states _ = true

-- One type for the states of service and action transactions: the two vocabularies overlap.
pub data TxState : Type 0 where
  pending accepted invoked responded timeout rejected failed duplicate : TxState
  goal_pending goal_sent goal_accepted executing canceling : TxState
  succeeded aborted canceled goal_rejected server_unavailable expired duplicate_goal : TxState
  cancel_accepted cancel_rejected orphaned_at_restart shutdown_abandoned : TxState
  result_received : TxState
  unlisted : String → TxState

unfoldable pub service_states : TxState → Bool
service_states TxState.pending = true
service_states TxState.accepted = true
service_states TxState.invoked = true
service_states TxState.responded = true
service_states TxState.timeout = true
service_states TxState.rejected = true
service_states TxState.failed = true
service_states TxState.duplicate = true
service_states _ = false

unfoldable pub service_terminal : TxState → Bool
service_terminal TxState.responded = true
service_terminal TxState.timeout = true
service_terminal TxState.rejected = true
service_terminal TxState.failed = true
service_terminal TxState.duplicate = true
service_terminal _ = false

unfoldable pub termination_reasons : TxState → Bool
termination_reasons TxState.succeeded = true
termination_reasons TxState.aborted = true
termination_reasons TxState.canceled = true
termination_reasons TxState.goal_rejected = true
termination_reasons TxState.timeout = true
termination_reasons TxState.failed = true
termination_reasons TxState.server_unavailable = true
termination_reasons TxState.expired = true
termination_reasons TxState.duplicate_goal = true
termination_reasons TxState.cancel_accepted = true
termination_reasons TxState.cancel_rejected = true
termination_reasons TxState.orphaned_at_restart = true
termination_reasons TxState.shutdown_abandoned = true
termination_reasons _ = false

unfoldable pub action_inflight : TxState → Bool
action_inflight TxState.pending = true
action_inflight TxState.goal_pending = true
action_inflight TxState.goal_sent = true
action_inflight TxState.goal_accepted = true
action_inflight TxState.executing = true
action_inflight TxState.canceling = true
action_inflight TxState.duplicate = true
action_inflight _ = false

is_result_received : TxState → Bool
is_result_received TxState.result_received = true
is_result_received _ = false

unfoldable pub action_terminal : TxState → Bool
unfolding termination_reasons is_result_received
action_terminal s = termination_reasons s || is_result_received s

unfoldable pub action_states : TxState → Bool
unfolding action_terminal action_inflight
action_states s = action_terminal s || action_inflight s
