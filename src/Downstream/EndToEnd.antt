-- ===== src/Downstream/EndToEnd.antt =====
-- FormatMessage of src/protocol/formatter.go, a transport that reorders, and handleUdpMessage of
-- src/downstream/downstream.go.
use air_gap.Common.Maps.{bytes_eq}
