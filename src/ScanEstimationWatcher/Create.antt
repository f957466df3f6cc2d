-- ===== src/ScanEstimationWatcher/Create.antt =====
-- reconcileDiscovered of orchestrator/watcher/scanestimation/watcher.go, which creates the
-- AssetScanEstimations of a ScanEstimation.
use vmclarity.Prelude.{ℕ, zero, suc, ◌+◌, String, Option, none, some, List, [], ◌∷◌, ◌++◌, length}
use vmclarity.Prelude.Int.{ℤ, pos}
use vmclarity.Go.{
  Result, ok, err, panics, Act, pure, lift, deref, require, or_default, ◌>>=◌, ◌>>◌, invalid,
  failed_call,
}
use vmclarity.EstimationTypes.{
  AssetScanEstimation, empty_patch, ScanEstimation, ScanEstimationSummary, empty_scan_patch,
}
use vmclarity.Status.AssetScanEstimationStatus
use vmclarity.Status.ScanEstimationStatus
use vmclarity.ScanEstimationWatcher.Api.{
  Client, Call, post_asset_scan_estimation, Posted, created, conflict, refused,
}
use vmclarity.ScanEstimationWatcher.Steps.{patch, default_ttl}

unfoldable pub new_asset_scan_estimation : ℤ → ScanEstimation → String → Result AssetScanEstimation
new_asset_scan_estimation now s asset_id = elim s.template [
  | none ↦ err invalid
  | some template ↦ ok (record empty_patch {
    ttl_seconds = some default_ttl;
    asset = some (record { id = asset_id; info = none });
    template = template.asset_scan_template;
    scan_estimation = some s.id;
    status = some (
        AssetScanEstimationStatus.new now AssetScanEstimationStatus.State.pending
          AssetScanEstimationStatus.Reason.created none);
  })
]

-- What a goroutine appends to AssetScanEstimations: an object that exists already is no error, and is
-- not recorded.
after_post : Posted → Result (List (Option String))
after_post (created id) = ok (id ∷ [])
after_post (conflict (some id)) = ok []
after_post (conflict none) = panics
after_post refused = err failed_call

unfoldable pub post : Client → AssetScanEstimation → Act Call (List (Option String))
unfolding after_post
post c a = (post_asset_scan_estimation a ∷ [], after_post (c.posts a))

-- The error path prints *scanEstimation.Id.
abbrev generated : Option String → Result AssetScanEstimation → Result AssetScanEstimation
generated id (ok a) = ok a
generated none (err e) = panics
generated (some _) (err e) = err e
generated id panics = panics

unfoldable pub create_for_asset : Client → ScanEstimation → String → Act Call (List (Option String))
unfolding new_asset_scan_estimation post
create_for_asset c s asset_id = do
  a ← lift (generated s.id (new_asset_scan_estimation c.now s asset_id))
  post c a

-- The errors on the channel, and what was appended; a panic ends the process.
abbrev pub settle : Result (List (Option String)) → Result (ℕ × List (Option String))
settle (ok ids) = ok (0, ids)
settle (err e) = ok (1, [])
settle panics = panics

-- One goroutine, and the ones after it.
abbrev pub collect :
    Act Call (List (Option String))
    → Act Call (ℕ × List (Option String))
    → Act Call (ℕ × List (Option String))
collect one others = do n ← (one.0, settle one.1); m ← others; pure (n.0 + m.0, n.1 ++ m.1)

unfoldable pub create_all :
    Client → ScanEstimation → List String → Act Call (ℕ × List (Option String))
unfolding create_for_asset
create_all c s [] = pure (0, [])
create_all c s (id ∷ ids) = collect (create_for_asset c s id) (create_all c s ids)

abbrev recorded :
    Client → Option (List (Option String)) → List (Option String) → Option (List (Option String))
recorded c old [] = old
recorded c old (id ∷ ids) = some (c.appended (or_default old [] ++ id ∷ ids))

abbrev empty_summary : ScanEstimationSummary
empty_summary = record {
  jobs_completed = none;
  jobs_left = none;
  total_size = none;
  total_time = none;
}

-- From the number of assets, of errors, and what was appended.
unfoldable pub after_errors :
    Client → ScanEstimation → ℕ → ℕ × List (Option String) → Result ScanEstimation
after_errors c s total (zero, ids) = ok (record s {
  asset_scan_estimations = recorded c s.asset_scan_estimations ids;
  summary = some (record (or_default s.summary empty_summary) { jobs_left = some (pos total) });
})
after_errors c s total (suc _, ids) = elim s.id [ none ↦ panics | some _ ↦ err failed_call ]

-- For the AssetIDs, nil or not.
unfoldable pub create_listed :
    Client → ScanEstimation → Option (List String) → Act Call ScanEstimation
unfolding create_all after_errors
create_listed c s none = pure s
create_listed c s (some ids) =
    create_all c s ids >>= λ made. lift (after_errors c s (length ids) made)

-- The log line at the end prints len(*scanEstimation.AssetIDs).
unfoldable pub start : Client → String → ScanEstimation → Act Call (Unit {0})
unfolding patch
start c id s = do
  patch c id (record empty_scan_patch {
    status = some (
        ScanEstimationStatus.new c.now ScanEstimationStatus.in_progress ScanEstimationStatus.running
          none);
    summary = s.summary;
    asset_ids = s.asset_ids;
    asset_scan_estimations = s.asset_scan_estimations;
  })
  _ ← lift (deref s.asset_ids)
  pure tt

unfoldable pub reconcile_discovered : Client → ScanEstimation → Act Call (Unit {0})
unfolding create_listed start
reconcile_discovered c s = do
  id ← lift (require s.id invalid)
  s' ← create_listed c s s.asset_ids
  start c id s'
