-- ===== src/Poller/Examples.antt =====
-- A poll for Scans at a concrete answer.
use vmclarity.Prelude.{String, Option, ◌≡◌, refl, true, some, none, List, [], ◌∷◌, All}
use vmclarity.Prelude.Int.{pos}
use vmclarity.Go.{ok, panics}
use vmclarity.ApiTypes.{Scan}
use vmclarity.Queue.{Queue, new_queue, known, enqueue}
use vmclarity.Queue.Valid.{IsValid, new_queue-IsValid, enqueue-IsValid}
use vmclarity.Poller.{list_events, get_running_scans, poll}
use vmclarity.Poller.Covers.{Wanted, poll_covers}

abbrev key : String → String
key item = item

abbrev unnamed_scan : Scan
unnamed_scan = record {
  id = none;
  revision = none;
  name = none;
  scan_config = none;
  status = none;
  scope = none;
  asset_ids = none;
  template = none;
  start_time = none;
  end_time = none;
  timeout_seconds = none;
  max_parallel_scanners = none;
  summary = none;
}

abbrev two_scans : List Scan
two_scans = record unnamed_scan { id = some "b" } ∷ unnamed_scan ∷ []

abbrev scan_id : Scan → Option String
scan_id s = s.id

abbrev one_item : Queue String
one_item = (enqueue key "a" new_queue).0

poll_covers_example :
    (q' : Queue String) × (poll key
        (list_events scan_id true true
          (some (record { count = some (pos 2); items = some two_scans })))
        one_item
      ≡ some q')
    × IsValid key q'
    × All (Wanted key scan_id (λ k. known key k q' ≡ true)) two_scans
    × ((k : String) → known key k one_item ≡ true → known key k q' ≡ true)
poll_covers_example =
    poll_covers key scan_id true true 1 (record unnamed_scan { id = some "b" }) (unnamed_scan ∷ [])
      one_item (enqueue-IsValid key "a" new_queue (new_queue-IsValid key))

scans_listed :
    get_running_scans (some (record { count = some (pos 2); items = some two_scans }))
    ≡ ok ("b" ∷ [])
unfolding get_running_scans list_events
scans_listed = refl

-- Items without a Count: the capacity of the slice is read from nil.
scans_not_counted :
    get_running_scans (some (record { count = none; items = some two_scans })) ≡ panics
unfolding get_running_scans list_events
scans_not_counted = refl
