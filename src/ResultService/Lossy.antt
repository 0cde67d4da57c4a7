-- ===== src/ResultService/Lossy.antt =====
-- A report whose payload is not read back as it was sent.
use device_platform.Prelude.{string_eq}
use device_platform.Prelude.Json.{Json}
use device_platform.Domain.Types.{confirmation_level_eq, event_source_eq, result_outcome_eq}
