-- ===== src/Examples.antt =====
-- The theorems applied to small concrete inputs.
mod QueueCases
mod StateCases
mod QosCases
mod DispatchCases
mod RequestCases
mod CommonCases
mod CatchUpCases
mod OutboundCases
mod InboundCases
