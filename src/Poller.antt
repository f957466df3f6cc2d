-- ===== src/Poller.antt =====
-- The poller of orchestrator/common/poller.go, the functions of the controllers that list what it
-- enqueues, and what the loop of reconciler.go does with the error of Reconcile.
pub mod Covers
mod Examples
use vmclarity.Prelude.{String, Bool, true, false, Option, none, some, List, [], ◌∷◌, if◌then◌else◌}
use vmclarity.Prelude.Int.{ℤ, pos, ltb_ℤ}
use vmclarity.Go.{Result, ok, err, panics, invalid, failed_call, requeue_after, Error}
use vmclarity.ApiTypes.{Scan, AssetScan}
use vmclarity.EstimationTypes.{AssetScanEstimation, ScanEstimation}
use vmclarity.ScanConfigWatcher.Api.{ScanConfig}
use vmclarity.Queue.{Queue, enqueue, done}
use vmclarity.Queue as WorkQueue

-- The answer to a GET of many objects.
pub record Listing (A : Type 0) : Type 0 where
  pub count : Option ℤ
  pub items : Option (List A)

module _ {A E : Type 0} (event : A → Option E) where
  -- The loop: objects that lack an ID are skipped.
  unfoldable pub events_of : List A → List E
  events_of [] = []
  events_of (a ∷ rest) = elim (event a) [ none ↦ events_of rest | some e ↦ e ∷ events_of rest ]

  -- `sized` says whether the slice is made with the capacity *Count, which is read.
  abbrev listed : Bool → Option ℤ → Option (List A) → Result (List E)
  listed sized count none = panics
  listed sized count (some []) = ok []
  listed true none (some (a ∷ rest)) = panics
  listed true (some n) (some (a ∷ rest)) = ok (events_of (a ∷ rest))
  listed false count (some (a ∷ rest)) = ok (events_of (a ∷ rest))

  -- `counted` says whether a Count that is not positive ends the function.
  abbrev by_count : Bool → Bool → Option ℤ → Option (List A) → Result (List E)
  by_count sized counted none none = err invalid
  by_count sized counted none (some items) = listed sized none (some items)
  by_count sized false (some n) items = listed sized (some n) items
  by_count sized true (some n) items =
      if ltb_ℤ (pos 0) n then listed sized (some n) items else ok []

  unfoldable pub list_events : Bool → Bool → Option (Listing A) → Result (List E)
  unfolding events_of
  list_events sized counted none = err failed_call
  list_events sized counted (some l) = by_count sized counted l.count l.items

-- GetRunningScans.
unfoldable pub get_running_scans : Option (Listing Scan) → Result (List String)
get_running_scans = list_events (λ s. s.id) true true

-- GetScanConfigs.
unfoldable pub get_scan_configs : Option (Listing ScanConfig) → Result (List String)
get_scan_configs = list_events (λ s. s.id) false false

-- GetScanEstimations.
unfoldable pub get_scan_estimations : Option (Listing ScanEstimation) → Result (List String)
get_scan_estimations = list_events (λ s. s.id) true true

-- AssetScanReconcileEvent; its Hash is the first field.
pub record AssetScanEvent : Type 0 where
  pub asset_scan_id : String
  pub scan_id : String
  pub asset_id : String

abbrev asset_scan_event : AssetScan → Option AssetScanEvent
asset_scan_event a = elim a.id [
  | none ↦ none
  | some id ↦ elim a.scan [
    | none ↦ none
    | some scan ↦ elim a.asset [
      | none ↦ none
      | some asset ↦ some (record { asset_scan_id = id; scan_id = scan.id; asset_id = asset.id })
    ]
  ]
]

-- GetAssetScans.
unfoldable pub get_asset_scans : Option (Listing AssetScan) → Result (List AssetScanEvent)
get_asset_scans = list_events asset_scan_event false true

-- AssetScanEstimationReconcileEvent: the ScanEstimation may be missing, and is "" then.
pub record EstimationEvent : Type 0 where
  pub asset_scan_estimation_id : String
  pub scan_estimation_id : String
  pub asset_id : String

abbrev text_or_empty : Option (Option String) → String
text_or_empty (some (some t)) = t
text_or_empty _ = ""

abbrev estimation_event : AssetScanEstimation → Option EstimationEvent
estimation_event a = elim a.id [
  | none ↦ none
  | some id ↦ elim a.asset [
    | none ↦ none
    | some asset ↦ some (record {
      asset_scan_estimation_id = id;
      scan_estimation_id = text_or_empty a.scan_estimation;
      asset_id = asset.id;
    })
  ]
]

-- GetAssetScanEstimations.
unfoldable pub get_asset_scan_estimations :
    Option (Listing AssetScanEstimation) → Result (List EstimationEvent)
get_asset_scan_estimations = list_events estimation_event false true

module _ {T : Type 0} (hash : T → String) where
  unfoldable pub enqueue_all : List T → Queue T → Queue T
  enqueue_all [] q = q
  enqueue_all (x ∷ rest) q = enqueue_all rest (enqueue hash x q).0

  -- The body of pollThenWait: `none` where GetItems panics. An error leaves the queue.
  unfoldable pub poll : Result (List T) → Queue T → Option (Queue T)
  unfolding enqueue_all
  poll (ok items) q = some (enqueue_all items q)
  poll (err e) q = some q
  poll panics q = none

  -- The `switch` of Reconciler.Start on the error of Reconcile; the goroutine of RequeueAfter is the Bool.
  unfoldable pub after_reconcile : T → Result (Unit {0}) → Queue T → Option (Queue T × Bool)
  after_reconcile item (ok u) q = some (done hash item q, false)
  after_reconcile item (err (requeue_after d)) q = some (WorkQueue.requeue_after hash item q)
  after_reconcile item (err e) q = some (done hash item q, false)
  after_reconcile item panics q = none
