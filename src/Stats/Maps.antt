-- ===== src/Stats/Maps.antt =====
-- The maps of vpnapi/wgstat.go: the endpoint's statistics once they are parsed.
use keydesk.Clock.{Time}
use keydesk.Storage.Types.{Bytes}
use keydesk.Prelude.{List, Option, String}
use keydesk.Counters.{RxTx}

-- The parsed statistics, by the keys of the peers.
pub record TrafficMap : Type 0 where
  pub wg : List (Bytes × RxTx)
  pub ipsec : List (Bytes × RxTx)
  pub ovc : List (Bytes × RxTx)
  pub outline : List (Bytes × RxTx)
  pub proto0 : List (Bytes × RxTx)

pub record LastActivityMap : Type 0 where
  pub wg : List (Bytes × Time)
  pub ipsec : List (Bytes × Time)
  pub ovc : List (Bytes × Time)
  pub olc : List (Bytes × Time)
  pub outline : List (Bytes × Time)
  pub proto0 : List (Bytes × Time)

-- `none` for a prefix that is not valid.
pub record EndpointMap : Type 0 where
  pub wg : List (Bytes × Option String)
  pub ipsec : List (Bytes × Option String)
  pub ovc : List (Bytes × Option String)
  pub olc : List (Bytes × Option String)
  pub outline : List (Bytes × Option String)
  pub proto0 : List (Bytes × Option String)

pub record Parsed : Type 0 where
  pub timestamp : Time
  pub traffic : TrafficMap
  pub last_seen : LastActivityMap
  pub endpoints : EndpointMap
