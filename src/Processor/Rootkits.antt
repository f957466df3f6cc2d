-- ===== src/Processor/Rootkits.antt =====
-- The queries for the rootkits and for the secrets of a scan return less than their keys are made of:
-- rootkits.go selects `path` and not `message`, and the schema of the server has no columns of secrets.
use vmclarity.Prelude.{
  String, ◌≡◌, refl, ◌<◌, true, none, some, List, [], ◌∷◌, count_by, filter_by, =?_iff, string_eq,
  Bool-cases, arith, inl, inr, ◌+◌, ◌∙◌, ap,
}
use vmclarity.Prelude.Int.{ℤ}
use vmclarity.Go.{panics}
use vmclarity.ApiTypes.{Totals}
use vmclarity.Findings.{
  FindingInfo, FindingType, Key, type_of, rootkits, secrets, generate_key, finding_type_eq, rootkit,
  secret,
}
use vmclarity.Processor.Store.{
  Env, M, World, Finding, ScanResult, answered, get_findings, query, continue-panics, counted,
}
use vmclarity.Processor.Family.{
  existing_map, add_existing, is_by, selected, get_existing_findings_for_scan,
  newer_existing_finding_time, reconcile_to_findings,
}
use vmclarity.Processor.Existing.{existing_map-world}
use vmclarity.Processor.{reconcile_rootkits, reconcile_secrets}

module _ (e : Env) where
  -- What the query returns of a finding of the type has no key.
  abbrev Keyless : FindingType → Type 0
  Keyless k = (i : FindingInfo) → type_of i ≡ k → generate_key e.digest (selected i) ≡ none

  rootkits-Keyless : Keyless rootkits
  unfolding generate_key
  rootkits-Keyless (rootkit i) h = ground arith
  rootkits-Keyless i h = ground arith

  secrets-Keyless : Keyless secrets
  unfolding generate_key
  secrets-Keyless (secret i) h = ground arith
  secrets-Keyless i h = ground arith

  module _ (k : FindingType) (keyless : Keyless k) where
    no_key :
        (s : String) (r : Finding)
        → is_by k s r ≡ true
        → generate_key e.digest (selected r.info) ≡ none
    no_key s r h = keyless r.info (ground (arith, =?_iff (type_of r.info) k))

    -- The loop panics at the first of them.
    loop_panics :
        (s : String) (rs : List Finding) (m : List (Key × String)) (w : World)
        → 0 < count_by (is_by k s) rs
        → (existing_map e (filter_by (is_by k s) rs) m w).1 ≡ panics
    unfolding existing_map add_existing
    loop_panics s [] m w h = absurd (omega arith)
    loop_panics s (r ∷ rs) m w h = elim (Bool-cases (is_by k s r)) [
      | inl is ↦ rw (is, no_key s r is) refl
      | inr other ↦ rw other (loop_panics s rs m w (ground arith))
    ]

    -- The function of a family whose findings are returned without their keys.
    family_panics :
        (total : String → Totals → M Totals) (is : List FindingInfo) (s : ScanResult) (w : World)
        (t : ℤ) (asset_id : String)
        → s.last_transition_time ≡ some t
        → s.asset ≡ some asset_id
        → e.answers w.calls ≡ answered
        → e.answers (w.calls + 1) ≡ answered
        → 0 < count_by (is_by k s.id) w.findings
        → ((reconcile_to_findings e k total is s w).1 ≡ panics)
          × ((reconcile_to_findings e k total is s w).0.findings ≡ w.findings)
    unfolding reconcile_to_findings newer_existing_finding_time get_existing_findings_for_scan
        get_findings query
    family_panics total is s w t asset_id time asset first second some_one = (
      rw (time, asset, first, second) (continue-panics _ _ stops).0,
      rw (time, asset, first, second)
          (ap (λ (x : World). x.findings)
            ((continue-panics _ _ stops).1
              ∙ existing_map-world e (filter_by (is_by k s.id) w.findings) []
                  (counted (counted w)))),
    )
      where
        stops :
            (existing_map e (filter_by (is_by k s.id) w.findings) [] (counted (counted w))).1
            ≡ panics
        stops = loop_panics s.id w.findings [] (counted (counted w)) some_one

  module _ (s : ScanResult) (w : World) (t : ℤ) (asset_id : String) where
    -- An AssetScan of which the table has a rootkit already, as after a run that failed later: where the
    -- two queries are answered, the next run panics, and leaves the table as it is.
    pub rootkits_panic :
        s.last_transition_time ≡ some t
        → s.asset ≡ some asset_id
        → e.answers w.calls ≡ answered
        → e.answers (w.calls + 1) ≡ answered
        → 0 < count_by (is_by rootkits s.id) w.findings
        → ((reconcile_rootkits e s w).1 ≡ panics)
          × ((reconcile_rootkits e s w).0.findings ≡ w.findings)
    unfolding reconcile_rootkits
    rootkits_panic = family_panics rootkits rootkits-Keyless _ _ s w t asset_id

    -- An AssetScan of which the table has a secret already: where the two queries are answered, the next
    -- run panics, and leaves the table as it is.
    pub secrets_panic :
        s.last_transition_time ≡ some t
        → s.asset ≡ some asset_id
        → e.answers w.calls ≡ answered
        → e.answers (w.calls + 1) ≡ answered
        → 0 < count_by (is_by secrets s.id) w.findings
        → ((reconcile_secrets e s w).1 ≡ panics)
          × ((reconcile_secrets e s w).0.findings ≡ w.findings)
    unfolding reconcile_secrets
    secrets_panic = family_panics secrets secrets-Keyless _ _ s w t asset_id
