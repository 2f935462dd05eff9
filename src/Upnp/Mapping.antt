-- ===== src/Upnp/Mapping.antt =====
-- pkg/upnp/mapping.go: a mapping as a router describes it. A duration is nanoseconds.
use vapora.Base.{ℕ, Bool, Bytes}

pub record PortMapping : Type 0 where
  pub protocol : Bytes
  pub external_port : ℕ
  pub internal_port : ℕ
  pub internal_host : Bytes
  pub description : Bytes
  pub lease_duration : ℕ
  pub enabled : Bool
