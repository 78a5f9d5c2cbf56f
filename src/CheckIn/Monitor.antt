-- ===== src/CheckIn/Monitor.antt =====
-- check-in.go, WithMonitor: the two check-ins of a run.
use bugfree_go_sdk.CheckIn.{CheckIn}
