-- ===== src/Diag/Experiment.antt =====
-- pkg/diag/filtering.go: which of two routers filters, by an experiment. What the probes and the
-- gateway answer, in the order in which they are asked, are the readings.
pub mod Verdicts
mod Tests
use vapora.Base.{
  ℕ, ◌+◌, ◌*◌, Bool, true, false, not, ◌&&◌, ◌||◌, Option, none, some, List, [], ◌∷◌, ◌++◌, ltb,
  ◌==◌, if◌then◌else◌, Bytes,
}
use vapora.Net.{UdpAddr, addr_eq}
use vapora.Stun.Filtering.{Filtering, filtering_unknown, accepts_unknown_peers}
use vapora.Upnp.Mapping.{PortMapping}

pub data Verdict : Type 0 where
  verdict_unknown already_open inner_router_filters upstream_filters inconclusive : Verdict

-- `failed` is an `Err` that is not nil.
pub record SocketFiltering : Type 0 where
  pub filtering : Filtering
  pub server : Bytes
  pub failed : Bool

pub data Confounder : Type 0 where
  not_confirmed : Confounder
  no_mapping_on : ℕ → Confounder
  points_elsewhere : ℕ → Confounder
  installed_disabled : Confounder
  endpoint_unread : Confounder
  endpoint_moved : UdpAddr → UdpAddr → Confounder
  probe_failed : Confounder
  control_opened : Confounder

pub record FilterResult : Type 0 where
  pub subject_port : ℕ
  pub control_port : ℕ
  pub external_port_asked : ℕ
  pub baseline_subject : SocketFiltering
  pub baseline_control : SocketFiltering
  pub mapped_subject : SocketFiltering
  pub mapped_control : SocketFiltering
  pub installed : Option PortMapping
  pub endpoint_before : Option UdpAddr
  pub endpoint_after : Option UdpAddr
  pub verdict : Verdict
  pub confounders : List Confounder

pub data Confirmation : Type 0 where
  confirmed : PortMapping → Confirmation
  mapping_not_found : Confirmation
  not_answered : Confirmation

pub record Readings : Type 0 where
  pub before_subject : SocketFiltering
  pub before_control : SocketFiltering
  pub seen_before : Option UdpAddr
  -- whether the gateway took the mapping, and what it says it has
  pub added : Bool
  pub confirmation : Confirmation
  pub after_subject : SocketFiltering
  pub after_control : SocketFiltering
  pub seen_after : Option UdpAddr

pub data Effect : Type 0 where
  measure_subject measure_control look : Effect
  add_mapping get_mapping delete_mapping : ℕ → Effect

pub data RunError : Type 0 where
  bad_socket cannot_install : RunError

abbrev pub unmeasured : SocketFiltering
unmeasured = record { filtering = filtering_unknown; server = []; failed = false }

abbrev pub no_result : FilterResult
no_result = record {
  subject_port = 0;
  control_port = 0;
  external_port_asked = 0;
  baseline_subject = unmeasured;
  baseline_control = unmeasured;
  mapped_subject = unmeasured;
  mapped_control = unmeasured;
  installed = none;
  endpoint_before = none;
  endpoint_after = none;
  verdict = verdict_unknown;
  confounders = [];
}

-- `checkInstalled`
unfoldable pub check_installed : Option PortMapping → ℕ → List Confounder
check_installed none subject_port = []
check_installed (some m) subject_port =
    (if not (m.internal_port == subject_port) then points_elsewhere m.internal_port ∷ [] else [])
    ++ (if not m.enabled then installed_disabled ∷ [] else [])

-- `checkEndpoint`
unfoldable pub check_endpoint : Option UdpAddr → Option UdpAddr → List Confounder
check_endpoint none after = endpoint_unread ∷ []
check_endpoint (some before) none = endpoint_unread ∷ []
check_endpoint (some before) (some after) =
    if addr_eq before after then [] else endpoint_moved before after ∷ []

abbrev pub opened : SocketFiltering → Bool
opened s = accepts_unknown_peers s.filtering

abbrev pub is_empty : List Confounder → Bool
is_empty [] = true
is_empty (c ∷ cs) = false

-- `conclude`, as the verdict and the confounders that it leaves.
unfoldable pub conclude : FilterResult → ℕ → Verdict × List Confounder
conclude r subject_port =
    let found =
      r.confounders
      ++ check_installed r.installed subject_port
      ++ check_endpoint r.endpoint_before r.endpoint_after in
    if r.mapped_subject.failed || r.mapped_control.failed
    then (inconclusive, found ++ probe_failed ∷ [])
    else if opened r.mapped_subject && opened r.mapped_control
    then (inconclusive, found ++ control_opened ∷ [])
    else if not (is_empty found)
    then (inconclusive, found)
    else if opened r.mapped_subject
    then (inner_router_filters, found)
    else (upstream_filters, found)

abbrev pub installed_of : Confirmation → Option PortMapping
installed_of (confirmed m) = some m
installed_of mapping_not_found = none
installed_of not_answered = none

abbrev pub doubts : Confirmation → ℕ → List Confounder
doubts (confirmed m) external_port = []
doubts mapping_not_found external_port = no_mapping_on external_port ∷ []
doubts not_answered external_port = not_confirmed ∷ []

-- The result with the readings of the first window, and of both.
abbrev pub baseline_of : ℕ → ℕ → ℕ → Readings → FilterResult
baseline_of subject_port control_port external_port s = record no_result {
  subject_port = subject_port;
  control_port = control_port;
  external_port_asked = external_port;
  baseline_subject = s.before_subject;
  baseline_control = s.before_control;
  endpoint_before = s.seen_before;
}

abbrev pub mapped_of : ℕ → ℕ → ℕ → Readings → FilterResult
mapped_of subject_port control_port external_port s =
    record (baseline_of subject_port control_port external_port s) {
      installed = installed_of s.confirmation;
      confounders = doubts s.confirmation external_port;
      mapped_subject = s.after_subject;
      mapped_control = s.after_control;
      endpoint_after = s.seen_after;
    }

abbrev pub external_of : ℕ → ℕ → ℕ
external_of subject_port asked = if asked == 0 then subject_port else asked

-- `Run` once the ports of the sockets are known.
unfoldable pub run_on : ℕ → ℕ → ℕ → Readings → FilterResult × Option RunError × List Effect
run_on subject_port control_port asked s =
    let external_port = external_of subject_port asked in
    let baseline = baseline_of subject_port control_port external_port s in
    let mapped = mapped_of subject_port control_port external_port s in
    let (verdict, confounders) = conclude mapped subject_port in
    let first = measure_subject ∷ measure_control ∷ look ∷ [] in
    if not s.before_subject.failed && opened s.before_subject
    then (record baseline { verdict = already_open }, none, first)
    else if not s.added
    then (baseline, some cannot_install, first ++ add_mapping external_port ∷ [])
    else (
      record mapped { verdict = verdict; confounders = confounders },
      none,
      first
          ++ add_mapping external_port
            ∷ get_mapping external_port
            ∷ measure_subject
            ∷ measure_control
            ∷ look
            ∷ delete_mapping external_port
            ∷ [],
    )

-- `Run`, with the ports that `localPort` reads off the two sockets.
unfoldable pub run :
    Option ℕ → Option ℕ → ℕ → Readings → FilterResult × Option RunError × List Effect
run none control asked s = (no_result, some bad_socket, [])
run (some subject_port) none asked s = (no_result, some bad_socket, [])
run (some subject_port) (some control_port) asked s = run_on subject_port control_port asked s
