-- ===== src/Policy.antt =====
-- The authorization layer (src/policy): the contract of a decider, the static rules and the cache.
mod Tests
pub mod Static
pub mod Caching
use acdp_control_plane.Prelude.{String, List, Bool, Option, none, some, not, str_eq}

pub data PolicyAction : Type 0 where
  context_publish context_retrieve context_list capability_declare run_start run_read : PolicyAction

pub data Visibility : Type 0 where
  public restricted private : Visibility

pub record PolicyRequest : Type 0 where
  pub subject_did : String
  pub action : PolicyAction
  pub resource_id : String
  pub resource_visibility : Option Visibility
  pub resource_audience : Option (List String)
  pub scopes : List String
  pub issuer : Option String
  pub federated : Option Bool
  pub tenant_id : Option String

pub data PolicyDenyCode : Type 0 where
  visibility audience scope tenant_mismatch unauthenticated : PolicyDenyCode

-- The reasons are texts for logs and are left out.
pub data PolicyDecision : Type 0 where
  allow : PolicyDecision
  deny : PolicyDenyCode → PolicyDecision
  indeterminate : PolicyDecision

-- `s` in a condition: neither absent nor empty.
abbrev pub truthy : Option String → Bool
truthy none = Bool.false
truthy (some s) = not (str_eq s "")
