-- ===== src/Metrics/Volume/Hour.antt =====
-- The counter of the hours.
use Prim.Native.Char.{char}
use eventify.Common.{
  ℕ, ◌+◌, ◌*◌, ◌/◌, ◌<◌, ◌≡◌, refl, ap, ◌∙◌, false, List, [], ◌∷◌, ◌++◌, All-append, String, str_eq,
  ◌==◌, arith,
}
use eventify.Common.Number.{decimal}
use eventify.Metrics.Keys.{metric_key, time_key, hour_key, day_key}
use eventify.Metrics.Keys.Apart.{metric_key-differ, last_activity-differ}
use eventify.Metrics.Keys.Laws.{metric_key_eq, metric_key_longer}
use eventify.Metrics.Commands.{
  Command, hincrby, expire, window_seconds, update_volume_metrics, after_volume,
  update_last_activity_time, event_commands,
}
use eventify.Metrics.Store.{MetricsStore, target}
use eventify.Metrics.Volume.{Processed, minute_of, volume_key, execute_all, process}
use eventify.Metrics.Volume.Counting.{Counter, counting, execute_all-append, view-execute_all}
use eventify.Metrics.Volume.Untouched.{AllOther, AllOther-rest, metric_key-IsOf}

abbrev pub hour_of : ℕ → ℕ
hour_of now = now / (1000 * 60 * 60)

abbrev pub hour_volume_key : ℕ → String
hour_volume_key h = metric_key "volume:hour" (decimal h)

module _ (ms : MetricsStore) where
  open ms use {Store, view}

  module _ (h : ℕ) (e : Processed) (s : Store) where
    before : List Command
    before =
        update_last_activity_time e.now
        ++ counting (volume_key (minute_of e.now)) window_seconds e.event.event_name

    AllOther-before : AllOther (hour_volume_key h) before
    unfolding before update_last_activity_time
    AllOther-before =
        let minute =
          metric_key_longer "volume" "our" (char b'h' tt) (minute_of e.now) (decimal h) refl in
        (last_activity-differ "volume:hour" (decimal h) refl, (minute, (minute, (minute, tt))))

    days : List Command
    days =
        hincrby (metric_key "volume:day" (day_key e.now)) "total_events"
        ∷ expire (metric_key "volume:day" (day_key e.now)) 86400
        ∷ []

    behind : List Command
    behind = days ++ after_volume e.now e.event_time e.index e.event e.payload

    AllOther-behind : AllOther (hour_volume_key h) behind
    unfolding behind days
    AllOther-behind =
        let day = metric_key-differ "volume:day" "volume:hour" (day_key e.now) (decimal h) refl in
        All-append (λ c. str_eq (target c) (hour_volume_key h) ≡ false) days
          (after_volume e.now e.event_time e.index e.event e.payload) (day, (day, tt))
          (AllOther-rest "volume:hour" (hour_volume_key h) (metric_key-IsOf "volume:hour" h) e.now
            e.event_time e.index e.event e.payload (refl, refl, refl, refl, refl, refl, refl, refl))

    started : Store
    started = execute_all ms e.now before s

    hour_commands : List Command
    hour_commands = counting (hour_volume_key (hour_of e.now)) 3600 e.event.event_name

    -- Only the commands on the event's own hour matter to an hour.
    view-process :
        view (hour_volume_key h) (process ms e s)
        ≡ view (hour_volume_key h) (execute_all ms e.now hour_commands started)
    unfolding process event_commands update_volume_metrics time_key hour_key before behind days
        hour_commands started update_last_activity_time
    view-process =
        ap (view (hour_volume_key h)) (
          execute_all-append ms e.now before (hour_commands ++ behind) s
          ∙ execute_all-append ms e.now hour_commands behind started)
        ∙ view-execute_all ms (hour_volume_key h) e.now behind
            (execute_all ms e.now hour_commands started) AllOther-behind

    view-started : view (hour_volume_key h) started ≡ view (hour_volume_key h) s
    unfolding started
    view-started = view-execute_all ms (hour_volume_key h) e.now before s AllOther-before

    -- An event in another hour leaves the hash of this one as it was.
    pub process_ne :
        (hour_of e.now == h) ≡ false
        → view (hour_volume_key h) (process ms e s) ≡ view (hour_volume_key h) s
    unfolding hour_commands
    process_ne differ =
        let other : str_eq (hour_volume_key (hour_of e.now)) (hour_volume_key h) ≡ false =
          metric_key_eq "volume:hour" (hour_of e.now) h ∙ differ in
        view-process
        ∙ view-execute_all ms (hour_volume_key h) e.now hour_commands started
            (other, (other, (other, tt)))
        ∙ view-started

  pub lives : (now last : ℕ) → hour_of last ≡ hour_of now → now < last + 3600 * 1000
  lives now last same = omega arith

  pub hit :
      (e : Processed) (s : Store)
      → (t : Store) × (view (hour_volume_key (hour_of e.now)) t
          ≡ view (hour_volume_key (hour_of e.now)) s)
        × (view (hour_volume_key (hour_of e.now)) (process ms e s)
            ≡ view (hour_volume_key (hour_of e.now)) (
                execute_all ms e.now
                  (counting (hour_volume_key (hour_of e.now)) 3600 e.event.event_name)
                  t))
  unfolding hour_commands
  hit e s = (
    started (hour_of e.now) e s,
    view-started (hour_of e.now) e s,
    view-process (hour_of e.now) e s,
  )

abbrev pub hours : (ms : MetricsStore) → Counter ms
hours ms = record {
  bucket = hour_of;
  key = hour_volume_key;
  seconds = 3600;
  lives = lives ms;
  hit = hit ms;
  miss = process_ne ms;
}
