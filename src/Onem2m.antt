-- ===== src/Onem2m.antt =====
-- src/ipe/onem2m/: what the proxy does with the CSE, apart from the transports.
pub mod Client
pub mod CatchUp
