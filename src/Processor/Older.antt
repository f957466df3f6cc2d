-- ===== src/Processor/Older.antt =====
-- What a successful run of a family leaves of the older findings of its asset.
use vmclarity.Prelude.{
  String, ◌≡◌, refl, ◌⊎◌, inl, inr, true, false, none, some, List, [], ◌∷◌, All, any, filter_by,
  ◌=?◌, =?_iff, string_eq, if◌then◌else◌, Bool-cases, arith, sym,
}
use mathlib.Core.Path.{subst}
use vmclarity.Prelude.Int.{ℤ, ltb_ℤ}
use vmclarity.Go.{ok, or_default}
use vmclarity.ApiTypes.{Totals}
use vmclarity.Findings.{FindingInfo, FindingType, type_of, finding_type_eq}
use vmclarity.Processor.Store.{
  Env, World, Finding, ScanResult, M, Answer, answered, refused, lost, patched, ids, write,
  write_by, patch_finding, patch_asset, get_asset, get_findings, query, read_by, counted, continue,
  continue-keeps, in_seconds, ◌>>=◌, ◌>>◌, Ends, chain-Ends, first-Ends,
}
use vmclarity.Processor.Family.{
  invalidate_all, invalidate_older_findings_by_type, is_outdated, reconcile_to_findings, no_totals,
  newer_existing_finding_time, get_existing_findings_for_scan, save_items, new_finding,
}
use vmclarity.Processor.Items.{write-findings}

module _ (e : Env) (k : FindingType) (asset_id : String) (t : ℤ) where
  -- A finding of the family and the asset that the database takes to be found before the time of the
  -- AssetScan, and not to be invalidated at or before it.
  abbrev pub IsOutdated : Finding → Type 0
  IsOutdated f =
      (type_of f.info ≡ k)
      × (f.asset_id ≡ asset_id)
      × (ltb_ℤ (e.read f.found_on) (e.read (in_seconds t)) ≡ true)
      × ((f.invalidated_on ≡ none)
          ⊎ ((s : ℤ) × (f.invalidated_on ≡ some s)
              × (ltb_ℤ (e.read (in_seconds t)) (e.read s) ≡ true)))

  -- The finding is not outdated, or it was invalidated by this run.
  abbrev pub Settled : Finding → Type 0
  Settled f = (¬ IsOutdated f) ⊎ (f.invalidated_on ≡ some t)

  outdated_found : (f : Finding) → IsOutdated f → is_outdated e k asset_id t f ≡ true
  outdated_found f (type, asset, older, inl unset) =
      ground (arith, =?_iff (type_of f.info) k, =?_iff f.asset_id asset_id)
  outdated_found f (type, asset, older, inr (s, set, later)) =
      ground (arith, =?_iff (type_of f.info) k, =?_iff f.asset_id asset_id)

  abbrev Waits : List Finding → Finding → Type 0
  Waits rest f = Settled f ⊎ (any (λ id. id =? f.id) (ids rest) ≡ true)

  patched-Waits :
      (f : Finding) (rest fs : List Finding)
      → All (Waits (f ∷ rest)) fs
      → All (Waits rest) (patched e f.id (record f { invalidated_on = some t }) fs)
  patched-Waits f rest [] h = tt
  patched-Waits f rest (r ∷ fs) (h, hs) = (
    elim (Bool-cases (r.id =? f.id)) [
      | inl same ↦ rw same (inl (inr refl))
      | inr other ↦ rw other (still other h)
    ],
    patched-Waits f rest fs hs,
  )
    where
      still : (r.id =? f.id) ≡ false → Waits (f ∷ rest) r → Waits rest r
      still other (inl s) = inl s
      still other (inr s) = inr (ground (arith, =?_iff r.id f.id, =?_iff f.id r.id))

  waited : (fs : List Finding) → All (Waits []) fs → All Settled fs
  waited [] h = tt
  waited (f ∷ fs) (inl s, hs) = (s, waited fs hs)
  waited (f ∷ fs) (inr s, hs) = cc s

  loop_settles :
      (rest : List Finding) (w : World) (u : Unit {0})
      → (invalidate_all e t rest w).1 ≡ ok u
      → All (Waits rest) w.findings
      → All Settled (invalidate_all e t rest w).0.findings
  unfolding invalidate_all patch_finding write
  loop_settles [] w u h v = waited w.findings v
  loop_settles (f ∷ rest) w u h v =
      step (e.answers w.calls) h (λ w' h v. loop_settles rest w' u h v)
    where
      patch_it : World → World
      patch_it w = record w {
        findings = patched e f.id (record f { invalidated_on = some t }) w.findings;
      }

      step :
          (a : Answer)
          → (continue
              (write_by a (counted w) (counted (patch_it w)))
              (λ _. invalidate_all e t rest)).1
            ≡ ok u
          → ((w' : World)
              → (invalidate_all e t rest w').1 ≡ ok u
              → All (Waits rest) w'.findings
              → All Settled (invalidate_all e t rest w').0.findings)
          → All Settled
              (continue
                (write_by a (counted w) (counted (patch_it w)))
                (λ _. invalidate_all e t rest)).0.findings
      step answered h ih = ih (counted (patch_it w)) h (patched-Waits f rest w.findings v)
      step refused h ih = cc h
      step lost h ih = cc h

  more-Waits :
      (r : Finding) (rest fs : List Finding) → All (Waits rest) fs → All (Waits (r ∷ rest)) fs
  more-Waits r rest [] h = tt
  more-Waits r rest (f ∷ fs) (inl s, hs) = (inl s, more-Waits r rest fs hs)
  more-Waits r rest (f ∷ fs) (inr s, hs) = (inr (ground arith), more-Waits r rest fs hs)

  query-Waits : (fs : List Finding) → All (Waits (filter_by (is_outdated e k asset_id t) fs)) fs
  query-Waits [] = tt
  query-Waits (f ∷ fs) = elim (Bool-cases (is_outdated e k asset_id t f)) [
    | inl is ↦
        subst (λ l. All (Waits l) (f ∷ fs)) (sym (hit is))
          (
            inr (ground (arith, =?_iff f.id f.id)),
            more-Waits f (filter_by (is_outdated e k asset_id t) fs) fs (query-Waits fs),
          )
    | inr other ↦
        subst (λ l. All (Waits l) (f ∷ fs)) (sym (miss other))
          (inl (inl (λ is. cc (other, outdated_found f is))), query-Waits fs)
  ]
    where
      hit :
          is_outdated e k asset_id t f ≡ true
          → filter_by (is_outdated e k asset_id t) (f ∷ fs)
            ≡ f ∷ filter_by (is_outdated e k asset_id t) fs
      hit is = rw is refl

      miss :
          is_outdated e k asset_id t f ≡ false
          → filter_by (is_outdated e k asset_id t) (f ∷ fs)
            ≡ filter_by (is_outdated e k asset_id t) fs
      miss other = rw other refl

  invalidate-Ends :
      Ends (λ w. All Settled w.findings) (invalidate_older_findings_by_type e k asset_id t)
  unfolding invalidate_older_findings_by_type get_findings query
  invalidate-Ends = record { ends = λ w u h. by_answer w (e.answers w.calls) u h }
    where
      by_answer :
          (w : World) (a : Answer) (u : Unit {0})
          → (continue
              (counted w, read_by a (ok (filter_by (is_outdated e k asset_id t) w.findings)))
              (invalidate_all e t)).1
            ≡ ok u
          → All Settled
              (continue
                (counted w, read_by a (ok (filter_by (is_outdated e k asset_id t) w.findings)))
                (invalidate_all e t)).0.findings
      by_answer w answered u h =
          loop_settles (filter_by (is_outdated e k asset_id t) w.findings) (counted w) u h
            (query-Waits w.findings)
      by_answer w refused u h = cc h
      by_answer w lost u h = cc h

  module _ (total : String → Totals → M Totals) (items : List FindingInfo) (s : ScanResult)
      (counts : (old : Totals) (w : World) → (total asset_id old w).0.findings ≡ w.findings) where
    abbrev tail : M (Unit {0})
    tail = do
      summary ← get_asset e asset_id
      totals ← total asset_id (or_default summary no_totals)
      patch_asset e asset_id totals

    tail-keeps : (w : World) → All Settled w.findings → All Settled (tail w).0.findings
    unfolding get_asset patch_asset query
    tail-keeps w v =
        continue-keeps (λ w. All Settled w.findings) (λ w. All Settled w.findings)
          (get_asset e asset_id w)
          (λ summary. total asset_id (or_default summary no_totals) >>= patch_asset e asset_id) v
          (λ w v. v)
          λ summary w v.
            continue-keeps (λ w. All Settled w.findings) (λ w. All Settled w.findings)
              (total asset_id (or_default summary no_totals) w) (patch_asset e asset_id)
              (rw (counts (or_default summary no_totals) w) v) (λ w v. v)
              (λ totals w v. patched_asset totals w v)
      where
        patched_asset :
            (totals : Totals) (w : World)
            → All Settled w.findings
            → All Settled (patch_asset e asset_id totals w).0.findings
        patched_asset totals w v =
            elim (write-findings e
              (λ w. record w {
                assets = λ a. if a =? asset_id then some (some totals) else w.assets a;
              })
              w) [ inl same ↦ rw same v | inr same ↦ rw same v ]

    abbrev body : M (Unit {0})
    body = do
      newer ← newer_existing_finding_time e asset_id k t
      existing ← get_existing_findings_for_scan e k s.id
      save_items e existing (new_finding s.id asset_id t newer) items
      invalidate_older_findings_by_type e k asset_id t
      tail

    body-Ends : Ends (λ w. All Settled w.findings) body
    body-Ends =
        chain-Ends (λ w. All Settled w.findings) (newer_existing_finding_time e asset_id k t) _
          λ newer.
            chain-Ends (λ w. All Settled w.findings) (get_existing_findings_for_scan e k s.id) _
              λ existing.
                chain-Ends (λ w. All Settled w.findings)
                  (save_items e existing (new_finding s.id asset_id t newer) items) _
                  λ _.
                    first-Ends (λ w. All Settled w.findings)
                      (invalidate_older_findings_by_type e k asset_id t) (λ _. tail) invalidate-Ends
                      (λ _ w v. tail-keeps w v)

    -- Where the function of a family returns with no error: every finding of the family and the asset
    -- that the database takes to be found before the time of the AssetScan is invalidated at that time,
    -- or is taken to be invalidated before. `total` writes no finding.
    pub no_older_active :
        (w : World) (u : Unit {0})
        → s.last_transition_time ≡ some t
        → s.asset ≡ some asset_id
        → (reconcile_to_findings e k total items s w).1 ≡ ok u
        → All Settled (reconcile_to_findings e k total items s w).0.findings
    unfolding reconcile_to_findings
    no_older_active w u time asset h = rw (time, asset) (body-Ends.ends w u (rw (time, asset) at h))
