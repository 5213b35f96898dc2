-- ===== src/Controllers/Reports.antt =====
-- controllers/status_report.go: the reports of the reconciler, without their times.
use authorino.Common.{Bytes, codes, bytes_eq, Option, List, [], ◌∷◌, if◌then◌else◌}
use authorino.Evaluators.{StringMap, put_string, get_string_key}

-- `StatusReport`
pub record Report : Type 0 where
  pub reason : Bytes
  pub message : Bytes
  pub linked_hosts : List Bytes

abbrev pub StatusReportMap : Type 0
StatusReportMap = StringMap Report

-- `StatusReportMap.Get`
unfoldable pub get_report : Bytes → StatusReportMap → Option Report
get_report id m = get_string_key id m

-- `StatusReportMap.Set`
unfoldable pub set_report : Bytes → Bytes → Bytes → List Bytes → StatusReportMap → StatusReportMap
set_report id reason message hosts m =
    put_string id (record { reason = reason; message = message; linked_hosts = hosts }) m

-- `StatusReportMap.Clear`
unfoldable pub clear_report : Bytes → StatusReportMap → StatusReportMap
clear_report id [] = []
clear_report id ((k, r) ∷ m) =
    let rest = clear_report id m in if bytes_eq k id then rest else (k, r) ∷ rest

abbrev pub reconciling : Bytes
reconciling = codes "Reconciling"

abbrev pub reconciled : Bytes
reconciled = codes "Reconciled"

abbrev pub invalid_resource : Bytes
invalid_resource = codes "Invalid"

abbrev pub hosts_linked : Bytes
hosts_linked = codes "HostsLinked"

abbrev pub hosts_not_linked : Bytes
hosts_not_linked = codes "HostsNotLinked"

abbrev pub caching_error : Bytes
caching_error = codes "CachingError"

abbrev pub unknown_reason : Bytes
unknown_reason = codes "Unknown"
