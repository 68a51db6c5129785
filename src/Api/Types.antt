-- ===== src/Api/Types.antt =====
-- internal/api/types.go: the wire types that the modelled components share. A nil slice and an empty
-- one are both `[]`, a pointer is an `Option`, a time is a number of nanoseconds.
use plexd.Base.{ℕ, String, List, Bool, Option}
use plexd.Base.GoMap.{GoMap}
use plexd.Base.Int.{ℤ}
use plexd.Api.Envelope.{Bytes}

pub record Peer : Type 0 where
  pub id : String
  pub public_key : String
  pub mesh_ip : String
  pub endpoint : String
  pub allowed_ips : List String
  pub psk : String

pub record PolicyRule : Type 0 where
  pub src : String
  pub dst : String
  pub port : ℤ
  pub protocol : String
  pub action : String

pub record Policy : Type 0 where
  pub id : String
  pub rules : List PolicyRule

pub record SigningKeys : Type 0 where
  pub current : String
  pub previous : String
  pub transition_expires : Option ℕ

pub record DataEntry : Type 0 where
  pub key : String
  pub content_type : String
  pub payload : Bytes
  pub version : ℤ
  pub updated_at : ℕ

pub record SecretRef : Type 0 where
  pub key : String
  pub version : ℤ

pub record BridgeConfig : Type 0 where
  pub access_subnets : List String
  pub enable_nat : Bool
  pub enable_forwarding : Bool

pub record RelaySessionAssignment : Type 0 where
  pub session_id : String
  pub peer_a_id : String
  pub peer_a_endpoint : String
  pub peer_b_id : String
  pub peer_b_endpoint : String
  pub expires_at : ℕ

pub record RelayConfig : Type 0 where
  pub sessions : List RelaySessionAssignment

pub record UserAccessPeer : Type 0 where
  pub public_key : String
  pub allowed_ips : List String
  pub psk : String
  pub label : String

pub record UserAccessConfig : Type 0 where
  pub enabled : Bool
  pub interface_name : String
  pub listen_port : ℤ
  pub peers : List UserAccessPeer

pub record IngressRule : Type 0 where
  pub rule_id : String
  pub listen_port : ℤ
  pub target_addr : String
  pub mode : String
  pub cert_pem : String
  pub key_pem : String

pub record IngressConfig : Type 0 where
  pub enabled : Bool
  pub rules : List IngressRule

pub record SiteToSiteTunnel : Type 0 where
  pub tunnel_id : String
  pub remote_endpoint : String
  pub remote_public_key : String
  pub local_subnets : List String
  pub remote_subnets : List String
  pub psk : String
  pub interface_name : String
  pub listen_port : ℤ

pub record SiteToSiteConfig : Type 0 where
  pub enabled : Bool
  pub tunnels : List SiteToSiteTunnel

pub record StateResponse : Type 0 where
  pub peers : List Peer
  pub policies : List Policy
  pub signing_keys : Option SigningKeys
  pub metadata : GoMap String
  pub bridge_config : Option BridgeConfig
  pub relay_config : Option RelayConfig
  pub user_access_config : Option UserAccessConfig
  pub ingress_config : Option IngressConfig
  pub site_to_site_config : Option SiteToSiteConfig
  pub entries : List DataEntry
  pub secret_refs : List SecretRef

pub record DriftCorrection : Type 0 where
  pub type : String
  pub detail : String

pub record DriftReport : Type 0 where
  pub timestamp : ℕ
  pub corrections : List DriftCorrection
