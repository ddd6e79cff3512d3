-- ===== src/Metrics/Volume/Minute.antt =====
-- The counter of the minutes.
use Prim.Native.Char.{char}
use eventify.Common.{
  ℕ, ◌<◌, ◌+◌, ◌*◌, ◌≡◌, refl, sym, ap, ◌∙◌, false, List, [], ◌∷◌, ◌++◌, String, str_eq, ◌==◌,
  arith, All-append,
}
use eventify.Metrics.Keys.{metric_key, time_key, hour_key, day_key}
use eventify.Common.Number.{decimal}
use eventify.Metrics.Keys.Apart.{last_activity-differ}
use eventify.Metrics.Keys.Laws.{metric_key_eq, metric_key_longer, str_eq_sym}
use eventify.Metrics.Commands.{
  Command, hincrby, expire, window_seconds, update_volume_metrics, after_volume,
  update_last_activity_time, event_commands,
}
use eventify.Metrics.Store.{target, MetricsStore}
use eventify.Metrics.Volume.{Processed, minute_of, volume_key, execute_all, process}
use eventify.Metrics.Volume.Counting.{Counter, counting, execute_all-append, view-execute_all}
use eventify.Metrics.Volume.Untouched.{AllOther, AllOther-rest, metric_key-IsOf}

module _ (ms : MetricsStore) where
  open ms use {Store, view}

  abbrev longer_commands : String → String → String → List Command
  longer_commands hour day name =
      hincrby (metric_key "volume:hour" hour) "total_events"
      ∷ hincrby (metric_key "volume:hour" hour) name
      ∷ expire (metric_key "volume:hour" hour) 3600
      ∷ hincrby (metric_key "volume:day" day) "total_events"
      ∷ expire (metric_key "volume:day" day) 86400
      ∷ []

  -- The commands on the hour and the day leave the minutes alone.
  AllOther-longer :
      (m : ℕ) (hour day name : String) → AllOther (volume_key m) (longer_commands hour day name)
  AllOther-longer m hour day name =
      let h =
        str_eq_sym (volume_key m) (metric_key "volume:hour" hour)
          (metric_key_longer "volume" "our" (char b'h' tt) m hour refl) in
      let d =
        str_eq_sym (volume_key m) (metric_key "volume:day" day)
          (metric_key_longer "volume" "ay" (char b'd' tt) m day refl) in
      (h, (h, (h, (d, (d, tt)))))

  module _ (m : ℕ) (e : Processed) (s : Store) where
    started : Store
    started = execute_all ms e.now (update_last_activity_time e.now) s

    view-started : view (volume_key m) started ≡ view (volume_key m) s
    unfolding started update_last_activity_time
    view-started =
        view-execute_all ms (volume_key m) e.now (update_last_activity_time e.now) s
          (last_activity-differ "volume" (decimal m) refl, tt)

    minute_commands : List Command
    minute_commands =
        hincrby (volume_key (minute_of e.now)) "total_events"
        ∷ hincrby (volume_key (minute_of e.now)) e.event.event_name
        ∷ expire (volume_key (minute_of e.now)) window_seconds
        ∷ []

    -- The last activity, the volumes, and other commands behind them.
    abbrev pub volume_first : List Command → List Command
    volume_first rest =
        update_last_activity_time e.now
        ++ (update_volume_metrics (time_key e.now) (hour_key e.now) (day_key e.now) e.event ++ rest)

    -- Of these, only the commands on the event's own minute matter to a minute.
    view-volume_first :
        (rest : List Command)
        → AllOther (volume_key m) rest
        → view (volume_key m) (execute_all ms e.now (volume_first rest) s)
          ≡ view (volume_key m) (execute_all ms e.now minute_commands started)
    unfolding update_volume_metrics time_key minute_commands started
    view-volume_first rest others =
        ap (view (volume_key m)) (
          execute_all-append ms e.now (update_last_activity_time e.now)
            (minute_commands ++ (longer ++ rest)) s
          ∙ execute_all-append ms e.now minute_commands (longer ++ rest) started)
        ∙ view-execute_all ms (volume_key m) e.now (longer ++ rest)
            (execute_all ms e.now minute_commands started)
            (All-append (λ c. str_eq (target c) (volume_key m) ≡ false) longer rest
              (AllOther-longer m (hour_key e.now) (day_key e.now) e.event.event_name) others)
      where
        longer : List Command
        longer = longer_commands (hour_key e.now) (day_key e.now) e.event.event_name

    view-process :
        view (volume_key m) (process ms e s)
        ≡ view (volume_key m) (execute_all ms e.now minute_commands started)
    unfolding process event_commands
    view-process = view-volume_first (after_volume e.now e.event_time e.index e.event e.payload) (
        AllOther-rest "volume" (volume_key m) (metric_key-IsOf "volume" m) e.now e.event_time
          e.index e.event e.payload (refl, refl, refl, refl, refl, refl, refl, refl))

    -- Whatever follows the volumes, a minute is left as by the whole event.
    pub view-volume_first_whole :
        (rest : List Command)
        → AllOther (volume_key m) rest
        → view (volume_key m) (execute_all ms e.now (volume_first rest) s)
          ≡ view (volume_key m) (process ms e s)
    view-volume_first_whole rest others = view-volume_first rest others ∙ sym view-process

    -- An event in another minute leaves the hash of this one as it was.
    pub process_ne :
        (minute_of e.now == m) ≡ false
        → view (volume_key m) (process ms e s) ≡ view (volume_key m) s
    unfolding minute_commands
    process_ne differ =
        let other : str_eq (volume_key (minute_of e.now)) (volume_key m) ≡ false =
          metric_key_eq "volume" (minute_of e.now) m ∙ differ in
        view-process
        ∙ view-execute_all ms (volume_key m) e.now minute_commands started
            (other, (other, (other, tt)))
        ∙ view-started

  pub lives : (now last : ℕ) → minute_of last ≡ minute_of now → now < last + window_seconds * 1000
  lives now last same = omega arith

  pub hit :
      (e : Processed) (s : Store)
      → (t : Store) × (view (volume_key (minute_of e.now)) t
          ≡ view (volume_key (minute_of e.now)) s)
        × (view (volume_key (minute_of e.now)) (process ms e s)
            ≡ view (volume_key (minute_of e.now)) (
                execute_all ms e.now
                  (counting (volume_key (minute_of e.now)) window_seconds e.event.event_name)
                  t))
  unfolding minute_commands
  hit e s = (
    started (minute_of e.now) e s,
    view-started (minute_of e.now) e s,
    view-process (minute_of e.now) e s,
  )

abbrev pub minutes : (ms : MetricsStore) → Counter ms
minutes ms = record {
  bucket = minute_of;
  key = volume_key;
  seconds = window_seconds;
  lives = lives ms;
  hit = hit ms;
  miss = process_ne ms;
}
