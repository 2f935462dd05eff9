-- ===== src/Diag/Experiment/Tests.antt =====
-- One experiment for pkg/diag/filtering.go: the mapping opens the subject, and nothing else moves.
use vapora.Base.{◌≡◌, ◌↔◌, refl, true, false, some, [], ◌∷◌, ◌&&◌, not}
use vapora.Net.{v4, UdpAddr, addr_eq, ip_eq}
use vapora.Stun.Filtering.{
  filtering_unknown, filters_nothing, filters_address_and_port, Filtering, accepts_unknown_peers,
}
use vapora.Upnp.Mapping.{PortMapping}
use vapora.Diag.Experiment.{
  Readings, SocketFiltering, confirmed, run, inner_router_filters, upstream_filters, opened, run_on,
  conclude, check_installed, check_endpoint,
}
use vapora.Diag.Experiment.Verdicts.{comparable, run-comparable}

abbrev reading : Filtering → SocketFiltering
reading filtering = record { filtering = filtering; server = b's' ∷ []; failed = false }

abbrev no_answer : SocketFiltering
no_answer = record { filtering = filtering_unknown; server = []; failed = true }

abbrev outside : UdpAddr
outside = record { ip = v4 198 51 100 7; port = 40000 }

abbrev held : PortMapping
held = record {
  protocol = b'U' ∷ b'D' ∷ b'P' ∷ [];
  external_port = 4000;
  internal_port = 4000;
  internal_host = [];
  description = [];
  lease_duration = 0;
  enabled = true;
}

abbrev readings : Readings
readings = record {
  before_subject = reading filters_address_and_port;
  before_control = reading filters_address_and_port;
  seen_before = some outside;
  added = true;
  confirmation = confirmed held;
  after_subject = reading filters_nothing;
  after_control = reading filters_address_and_port;
  seen_after = some outside;
}

run-comparable_example :
    (((run (some 4000) (some 4001) 0 readings).0.verdict ≡ inner_router_filters) ↔ (
      (comparable 4000 readings
        && opened readings.after_subject
        && not (opened readings.after_control))
      ≡ true))
    × (((run (some 4000) (some 4001) 0 readings).0.verdict ≡ upstream_filters)
        ↔ ((comparable 4000 readings && not (opened readings.after_subject)) ≡ true))
    × ((run (some 4000) (some 4001) 0 (record readings { before_control = no_answer })).0.verdict
        ≡ (run (some 4000) (some 4001) 0 readings).0.verdict)
run-comparable_example = run-comparable 4000 4001 0 readings no_answer

-- With no answer to either probe before the mapping, a router is still blamed.
unasked_run :
    (run
      (some 4000)
      (some 4001)
      0
      (record readings { before_subject = no_answer; before_control = no_answer })).0.verdict
    ≡ inner_router_filters
unfolding run run_on conclude check_installed check_endpoint accepts_unknown_peers addr_eq ip_eq
unasked_run = refl

blamed_run : (run (some 4000) (some 4001) 0 readings).0.verdict ≡ inner_router_filters
unfolding run run_on conclude check_installed check_endpoint accepts_unknown_peers addr_eq ip_eq
blamed_run = refl
