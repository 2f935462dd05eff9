-- ===== src/Diag/Experiment/Verdicts.antt =====
-- pkg/diag/filtering.go: when a router is blamed.
use vapora.Base.{
  ℕ, ◌≡◌, ◌↔◌, refl, Bool, true, false, not, ◌&&◌, Option, none, some, ◌++◌, ◌==◌, if◌then◌else◌,
  arith,
}
use vapora.Net.{UdpAddr, addr_eq}
use vapora.Diag.Experiment.{
  Readings, SocketFiltering, FilterResult, Verdict, inner_router_filters, upstream_filters,
  inconclusive, Confirmation, confirmed, mapping_not_found, not_answered, check_installed,
  check_endpoint, conclude, installed_of, doubts, opened, is_empty, run_on, run, mapped_of,
  external_of,
}

-- The gateway says it has the mapping that was asked for, and that it is switched on.
abbrev pub confirms : Confirmation → ℕ → Bool
confirms (confirmed m) port = m.internal_port == port && m.enabled
confirms mapping_not_found port = false
confirms not_answered port = false

abbrev pub same_seen : Option UdpAddr → Option UdpAddr → Bool
same_seen none after = false
same_seen (some before) none = false
same_seen (some before) (some after) = addr_eq before after

-- Nothing but the mapping changed that the code asks about, and both probes of the second window
-- were measured. A probe of the first window that failed is not held against the experiment: the
-- subject counts as shut then, and the control is not looked at.
abbrev pub comparable : ℕ → Readings → Bool
comparable port s =
    not (not s.before_subject.failed && opened s.before_subject)
    && s.added
    && confirms s.confirmation port
    && same_seen s.seen_before s.seen_after
    && not s.after_subject.failed
    && not s.after_control.failed

no_confounders :
    (c : Confirmation) (before after : Option UdpAddr) (port asked : ℕ)
    → is_empty
        ((doubts c asked ++ check_installed (installed_of c) port) ++ check_endpoint before after)
      ≡ (confirms c port && same_seen before after)
unfolding check_installed check_endpoint
no_confounders (confirmed m) none after port asked = ground arith
no_confounders (confirmed m) (some b) none port asked = ground arith
no_confounders (confirmed m) (some b) (some a) port asked = ground arith
no_confounders mapping_not_found before after port asked = refl
no_confounders not_answered before after port asked = refl

abbrev is_inner : Verdict → Bool
is_inner inner_router_filters = true
is_inner _ = false

abbrev is_upstream : Verdict → Bool
is_upstream upstream_filters = true
is_upstream _ = false

-- What `conclude` says when the confounders found so far are these.
conclude_lem :
    (r : FilterResult) (port : ℕ) (clean : Bool)
    → is_empty (
        r.confounders
        ++ check_installed r.installed port
        ++ check_endpoint r.endpoint_before r.endpoint_after)
      ≡ clean
    → ((conclude r port).0 ≡ (
        if clean && not r.mapped_subject.failed && not r.mapped_control.failed
        then (if opened r.mapped_subject
            then (if opened r.mapped_control then inconclusive else inner_router_filters)
            else upstream_filters)
        else inconclusive))
unfolding conclude
conclude_lem r port clean e = rw e (ground arith)

-- `conclude` does not read the baseline.
same_verdict :
    (subject_port control_port asked : ℕ) (s : Readings) (other : SocketFiltering)
    → (run
        (some subject_port)
        (some control_port)
        asked
        (record s { before_control = other })).0.verdict
      ≡ (run (some subject_port) (some control_port) asked s).0.verdict
unfolding run run_on conclude
same_verdict subject_port control_port asked s other = ground arith

-- The experiment blames the inner router exactly if its windows are comparable, the subject opened
-- and the control did not; it blames the router upstream exactly if they are comparable and the
-- subject stayed shut, be the control what it may. Comparable means: the gateway took the mapping and
-- confirms it for the subject's port and as enabled, both looks at the endpoint gave the same one,
-- both probes after the mapping were measured, and no measured probe had found the subject open
-- before it. Of the two probes before the mapping no more is asked: one of the subject that failed
-- counts as shut, and the reading of the control, failed or not, never changes the verdict.
pub run-comparable :
    (subject_port control_port asked : ℕ) (s : Readings) (other : SocketFiltering)
    → (((run (some subject_port) (some control_port) asked s).0.verdict ≡ inner_router_filters) ↔ (
        (comparable subject_port s && opened s.after_subject && not (opened s.after_control))
        ≡ true))
      × (((run (some subject_port) (some control_port) asked s).0.verdict ≡ upstream_filters)
          ↔ ((comparable subject_port s && not (opened s.after_subject)) ≡ true))
      × ((run
            (some subject_port)
            (some control_port)
            asked
            (record s { before_control = other })).0.verdict
          ≡ (run (some subject_port) (some control_port) asked s).0.verdict)
unfolding run run_on
run-comparable subject_port control_port asked s other =
    let external_port = external_of subject_port asked in
    let c =
      conclude_lem (mapped_of subject_port control_port external_port s) subject_port
        (confirms s.confirmation subject_port && same_seen s.seen_before s.seen_after)
        (no_confounders s.confirmation s.seen_before s.seen_after subject_port external_port) in
    (ground (arith, c), ground (arith, c), same_verdict subject_port control_port asked s other)
