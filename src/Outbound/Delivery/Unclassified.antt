-- ===== src/Outbound/Delivery/Unclassified.antt =====
-- The answers that `_deliver` cannot deal with: they are no success, and `classify` raises on them.
use one_m2m_dds_ipe.Prelude.{ℕ, some, string_equality}
use one_m2m_dds_ipe.Onem2m.Client.{OneM2MResponse, http_status_from_rsc}

-- The response that the MQTT client makes of a oneM2M response code.
abbrev pub from_mqtt : ℕ → OneM2MResponse
from_mqtt rsc = record { status = http_status_from_rsc rsc; rsc = some rsc }
