-- ===== src/Lib.antt =====
-- VMClarity finds assets (virtual machines, images, containers), scans them and keeps the findings in
-- an API server. This library models the orchestrator and the objects that it drives: a ScanConfig says
-- when to scan, a Scan stands for one run, and each of its assets has an AssetScan. For each kind of
-- object a poller lists the ones that need work and enqueues their IDs (orchestrator/common/queue.go),
-- and one reconciler (orchestrator/common/reconciler.go) takes them from the queue and calls the
-- controller's Reconcile, which reads objects from the API server, calls a provider, and patches objects.
-- The API server checks each update of a status against the tables of api/types.
--
-- The files, and the code that each models:
--   Prelude           shared notation; Prelude/Int has signed integers and Go's 64-bit int
--   Go                errors, panics (a nil pointer that is read) and the calls that an action makes, in order;
--                     the rules by which a property of all calls follows a chain
--   Status            the status machine that scanstatus.go, assetscanstatus.go, resourcecleanupstatus.go,
--                     assetscanestimationstatus.go and scanestimationstatus.go of api/types repeat: NewX, Equals,
--                     isValidReason, isValidStatusTransition and IsValidTransition are new_status, equals,
--                     is_valid_reason, is_valid_status_transition and is_valid_transition. Its child modules hold the
--                     tables of each file; Laws, History and Tables what holds of them
--   Goroutines        the order of steps of the goroutines that two reconcileAborted start
--   Queue             orchestrator/common/queue.go, one function for each method; Queue/Spec is what they promise,
--                     as phases of keys and a line of items; Queue/System adds the goroutines of
--                     EnqueueAfter, the channel itemAdded and the reconciler of reconciler.go, as events in any order
--   Poller            orchestrator/common/poller.go, with GetRunningScans, GetScanConfigs, GetAssetScans and the
--                     like of the controllers, and the errors of Reconcile in reconciler.go; Covers has what a
--                     poll leaves in the queue
--   ApiTypes          the objects of api/types/types.gen.go, with scan.go and families.go
--   ScanWatcher       orchestrator/watcher/scan: Reconcile; Steps has reconcilePending, reconcileDiscovered and
--                     reconcileInProgress, Create the AssetScans of a Scan, Summary the counts and totals, Abort
--                     reconcileAborted with its goroutines
--   ScanConfigWatcher orchestrator/watcher/scanconfig: Schedule is schedule.go, Steps the handlers of watcher.go
--   AssetScanWatcher  orchestrator/watcher/assetscan: Start has reconcilePending and reconcileScheduled, Finish
--                     reconcileDoneAndFailed, cleanupResources and reconcileAborted
--   AssetScanEstimationWatcher
--                     orchestrator/watcher/assetscanestimation: Reconcile with its handlers; Ends has what holds
--                     of the end of an estimation
--   EstimationTypes   the estimations of types.gen.go, with scanestimation.go
--   ScanEstimationWatcher
--                     orchestrator/watcher/scanestimation: Reconcile; Steps has reconcileNoState, reconcilePending
--                     and reconcileDone, Create the AssetScanEstimations of reconcileDiscovered, Progress
--                     reconcileInProgress, Abort reconcileAborted; Asks has the statuses that they ask for
--   ApiServer         api/server/scan_controller.go; Table is api/server/database/gorm/scan.go with common.go. Done has
--                     what a successful call has done, Consistency and Uniqueness the rows of the table, Revisions
--                     the header If-Match, Answers the controller of Scans in front of this server
--   Findings          the findings of types.gen.go and their keys, cli/findingkey
--   Processor         orchestrator/processor/assetscan: Store has the API server as far as the processor uses it, with
--                     calls that fail or are lost, Family common.go and the body that the files of the families repeat.
--                     Tags, Existing, Items, Distinct and Reruns have what holds of the keys of findings, Older what
--                     of the findings of earlier scans, Rootkits what goes wrong with rootkits and secrets
--   Discoverer        orchestrator/discoverer: a run of DiscoverAndCreateAssets on the assets that the
--                     server holds; Image is the merge of api/types/containerimageinfo.go, Found what
--                     a run makes of the assets before it ends any, Marks, Calls, Ended and Ends which ones it
--                     marks as terminated
--   CliScanner        the command scan of cli/cmd/scan/scan.go; Families is cli/families/manager.go, State
--                     cli/state/vmclarity.go; Runs and Reports have what holds of a run
--
-- What a controller is told from outside is a parameter: its record `Client` has a function for each
-- request, and time.Now(), so that a handler is a function from the answers to its calls and its result.
-- The package cronexpr is the function that its method Next is. A merge of JSON documents, which the
-- server uses for a PATCH, is a parameter too, with the law that it takes state and reason from the
-- patch, and for findings the law that it keeps a key which both documents have.
--
-- Pointers are options; a nil pointer that is read is the result `panics`. Texts of errors, log lines
-- and fields that no modelled code uses are left out. An int of Go wraps around at 2^63; times are
-- nanoseconds and not bounded. The one loop with fuel is that of NextAfter: each turn moves on by a
-- nanosecond at least, so that the distance to the bound, plus two, is enough.
--
-- Not modelled: the timeouts of the loops in orchestrator/common, the API server's handlers for objects
-- other than Scans, and the families, analyzers and presenters of the command line scanner. The cloud
-- providers, the user interface and generated code are calls of libraries and I/O.
mod Prelude
pub mod Go
pub mod Goroutines
pub mod Status
pub mod Queue
pub mod Poller
pub mod Findings
pub mod Discoverer
pub mod Processor
pub mod ApiTypes
pub mod ScanWatcher
pub mod ScanConfigWatcher
pub mod AssetScanWatcher
pub mod EstimationTypes
pub mod AssetScanEstimationWatcher
pub mod ScanEstimationWatcher
pub mod ApiServer
pub mod CliScanner
