-- ===== src/Api/Tunnels.antt =====
-- The data of api/tunnels.go.
use Prim.Native.String.{String}
use go_playit.Base.{Result, ℕ, Bool, List, Option}
use go_playit.Json.{Json}

pub record AssignedDefaultCreate : Type 0 where
  pub ip : List ℕ
  pub port : Option ℕ

pub record AssignedAgentCreate : Type 0 where
  pub id : List ℕ
  pub ip : List ℕ
  pub port : Option ℕ

pub record AssignedManagedCreate : Type 0 where
  pub id : Option (List ℕ)

-- TunnelOriginCreate.Agent is an `any`: one of the three types, or another one with what Marshal makes of
-- it.
pub data OriginAgent : Type 0 where
  assigned_default : AssignedDefaultCreate → OriginAgent
  assigned_agent : AssignedAgentCreate → OriginAgent
  assigned_managed : AssignedManagedCreate → OriginAgent
  other_agent : Result Json → OriginAgent

pub record TunnelOriginCreate : Type 0 where
  pub kind : String
  pub agent : OriginAgent

pub record UseAllocDedicatedIp : Type 0 where
  pub ip_host : String
  pub port : Option ℕ

pub record UseAllocPortAlloc : Type 0 where
  pub id : List ℕ

pub record UseRegion : Type 0 where
  pub region : String

-- TunnelCreateUseAllocation.Data is an `any`, too.
pub data AllocData : Type 0 where
  dedicated_ip : UseAllocDedicatedIp → AllocData
  port_alloc : UseAllocPortAlloc → AllocData
  use_region : UseRegion → AllocData
  other_data : Json → AllocData

pub record TunnelCreateUseAllocation : Type 0 where
  pub status : String
  pub kind : String
  pub details : AllocData

-- `none` is a nil pointer.
pub record Tunnel : Type 0 where
  pub id : Option (List ℕ)
  pub name : String
  pub tunnel_type : String
  pub port_type : String
  pub port_count : ℕ
  pub origin : TunnelOriginCreate
  pub enabled : Bool
  pub alloc : Option TunnelCreateUseAllocation
  pub firewall : Option (List ℕ)

pub record Domain : Type 0 where
  pub id : List ℕ
  pub name : String
  pub is_external : Bool
  pub parent : String
  pub source : String

pub record Ratelimit : Type 0 where
  pub bytes_secs : ℕ
  pub packets_secs : ℕ

pub record ExpireNotice : Type 0 where
  pub disable : ℕ
  pub remove : ℕ

pub record AccountTunnel : Type 0 where
  pub id : List ℕ
  pub tunnel_type : String
  pub created_at : ℕ
  pub name : String
  pub port_type : String
  pub port_count : ℕ
  pub alloc : TunnelCreateUseAllocation
  pub origin : TunnelOriginCreate
  pub domain : Option Domain
  pub firewall_id : String
  pub ratelimit : Ratelimit
  pub active : Bool
  pub disabled_reason : String
  pub region : String
  pub expire_notice : Option ExpireNotice

pub record AlloctedPorts : Type 0 where
  pub allowed : ℕ
  pub claimed : ℕ
  pub desired : ℕ

pub record AccountTunnels : Type 0 where
  pub tcp : AlloctedPorts
  pub udp : AlloctedPorts
  pub tunnels : List AccountTunnel
