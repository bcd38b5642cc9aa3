-- ===== src/Linkd/Api/Reports.antt =====
-- linkd/internal/api/api.go: the two handlers that report what their callbacks say, `health` and
-- `bgp`. A callback that is nil is none.
use ietf_scion_testbed.Prelude.{ℕ, Bool, Option, none, some, length}
use ietf_scion_testbed.Linkd.Api.{Server}
use ietf_scion_testbed.Linkd.BgpStatus.{Snapshot}

-- The body of a health report: the number of interfaces, and the outcome of the metadata's write and
-- of the reload, if it is known.
pub record Health : Type 0 where
  pub interfaces : ℕ
  pub outcome : Option (Bool × Bool)

unfoldable pub handle_health : {F : Type 0} → Server F → Option (Bool × Bool) → Health
handle_health s status = record { interfaces = length s.ifaces; outcome = status }

pub data BgpReport : Type 0 where
  ok_snapshot : Snapshot → BgpReport
  -- 503
  unavailable : BgpReport

-- The callback's answer is none if it fails. An empty list is shown as one, whether nil or not.
unfoldable pub handle_bgp : Option (Option Snapshot) → BgpReport
handle_bgp none = unavailable
handle_bgp (some none) = unavailable
handle_bgp (some (some snap)) = ok_snapshot snap
