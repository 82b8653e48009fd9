-- ===== src/Qos.antt =====
-- src/ipe/qos: the decisions on DDS quality of service. `Profile` has the data, `Shared` the
-- primitives of _shared.py, `Policies` the modules of the single policies, `Engine` their
-- composition.
pub mod Profile
pub mod Shared
pub mod Policies
pub mod Engine
pub mod Requests
pub mod Mappings
pub mod Registry
