-- ===== src/Ysf/Bridge/Received/Whole.antt =====
-- A stream, and a transmission as a whole.
use svx_reflector_dashboard.Ysf.Bridge.{Bridge}
