-- ===== src/Metrics/Service/Laws/Interval.antt =====
-- Whom a round of the interval reaches.
use mathlib.Core.Path.{subst}
use eventify.Common.{ℕ, ◌≡◌, sym, true}
use eventify.Gateway.{Gateway, emit, to_room, user_room, dashboard_data}
use eventify.Gateway.Rooms.{Reaches, Reaches-NobodyIn, NobodyIn}
use eventify.Iam.Platform.{Platform}
use eventify.Metrics.Dashboard.{MetricsDashboard, generate_dashboard_metrics}
use eventify.Metrics.Service.{
  Service, Reading, on_interval, calculate_and_broadcast_dashboard_metrics,
}
use eventify.Metrics.Service.Laws.{broadcast_metrics_lem}
use eventify.Metrics.Store.{MetricsStore}

module _ (r : Reading) (ms : MetricsStore) (p : Platform) where
  open ms use {Store}

  -- However sockets came and went since nobody was connected, as long as no user is called `all`: a round
  -- of the interval sends its dashboard to one room, and nobody is in it.
  pub on_interval-NobodyIn :
      (now : ℕ) (start : Gateway MetricsDashboard) (s : Service Store)
      → NobodyIn start
      → Reaches p start s.gateway
      → s.gateway.is_initialized ≡ true
      → ((on_interval r ms now s).gateway
          ≡ emit
              (to_room (user_room "all") (
                dashboard_data
                  (generate_dashboard_metrics r.time_label ms now s.live_events s.redis)))
              s.gateway)
        × NobodyIn (on_interval r ms now s).gateway
  unfolding on_interval calculate_and_broadcast_dashboard_metrics emit
  on_interval-NobodyIn now start s empty reached initialised =
      let sent =
        broadcast_metrics_lem "all"
          (generate_dashboard_metrics r.time_label ms now s.live_events s.redis) s.gateway
          initialised in
      (sent, subst NobodyIn (sym sent) (Reaches-NobodyIn p start s.gateway reached empty))
