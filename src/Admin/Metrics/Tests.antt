-- ===== src/Admin/Metrics/Tests.antt =====
-- The metrics of a day without requests, and an instance of the theorem about them.
use syn.Common.{ℕ, ◌<◌, ◌≡◌, refl, ◌↔◌, true, none, some, List, []}
use syn.Common.Text.{Text, codes}
use syn.Errors.{ok}
use syn.Admission.{Controller, init}
use syn.Observability.{LatencyDetail, latency_stats}
use syn.Admin.Metrics.{prometheus_metrics}
use syn.Admin.Metrics.Grammar.{is_value, AreLines}
use syn.Admin.Metrics.Format.{prometheus_metrics-AreLines}

abbrev quarter : ℕ → Text
quarter n = codes "0.25"

quarter-plain : (n : ℕ) → is_value (quarter n) ≡ true
unfolding is_value
quarter-plain n = refl

abbrev two_slots : Controller
two_slots = (init 2 8 30).ctl

prometheus_metrics-AreLines_example :
    (ls : List Text) × (l : LatencyDetail) × (prometheus_metrics quarter true
        (some two_slots)
        86400
        100000
        []
      ≡ ok ls)
    × (latency_stats 86400 100000 [] none none ≡ ok l)
    × (AreLines ls ↔ (0 < l.ttft_ms.count))
prometheus_metrics-AreLines_example =
    prometheus_metrics-AreLines quarter quarter-plain (some two_slots) 86400 100000 []
