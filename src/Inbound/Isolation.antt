-- ===== src/Inbound/Isolation.antt =====
-- An exception in one dispatch does not reach the others.
use one_m2m_dds_ipe.State.Admission
