-- ===== src/Stats/Parse.antt =====
-- vpnapi/wgstat.go: the endpoint's statistics, read from texts. Entries come in the order in which the
-- code goes over the maps; a later one for the same key takes the place of an earlier one.
-- `netip.ParsePrefix` is a parameter: the text of a valid prefix.
use keydesk.Counters.{RxTx}
use keydesk.Stats.Maps.{TrafficMap, LastActivityMap, EndpointMap, Parsed}
use keydesk.Storage.Types.{Bytes}
use keydesk.Clock.{Time, unix_epoch, second}
use keydesk.Prelude.{
  ◌*◌, ◌+◌, ◌-◌, ◌==◌, Bool, List, Option, String, [], false, if◌then◌else◌, none, some, true, ℕ,
  ◌∷◌,
}
use Prim.Native.Char.{Char, code}
use text.Mathlib.Text.{◌==◌ as str_eq}
use keydesk.Prelude.Texts.{parse_uint, parse_int}
use keydesk.World.{Traffic, LastSeen, Endpoint, WgStatsIn, Result, ok, err, parse_failed}

-- `strings.ReplaceAll` of one character by another
replace_all : Char → Char → String → String
replace_all a b String.[] = ""
replace_all a b (String.◌∷◌ c s) =
    String.◌∷◌ (if code c == code a then b else c) (replace_all a b s)

-- A key in the alphabet of URLs, in the standard one.
standard_key : String → String
standard_key s = replace_all "_" "/" (replace_all "-" "+" s)

-- `time.Unix(ts, 0)`, cut off at the zero time
unix_time : Bool × ℕ → Time
unix_time (false, n) = unix_epoch + n * second
unix_time (true, n) = unix_epoch - n * second

put_traffic : String → Bytes × RxTx → TrafficMap → TrafficMap
put_traffic vpn x m =
    if str_eq vpn "wireguard"
    then record m { wg = x ∷ m.wg }
    else if str_eq vpn "ipsec"
    then record m { ipsec = x ∷ m.ipsec }
    else if str_eq vpn "cloak-openvpn"
    then record m { ovc = x ∷ m.ovc }
    else if str_eq vpn "outline-ss"
    then record m { outline = x ∷ m.outline }
    else if str_eq vpn "proto0"
    then record m { proto0 = x ∷ m.proto0 }
    else m

one_traffic : Traffic → TrafficMap → TrafficMap
one_traffic t m = elim (parse_uint t.received) [
  | none ↦ m
  | some rx ↦ elim (parse_uint t.sent) [
    | none ↦ m
    | some tx ↦ put_traffic t.vpn (standard_key t.key, record { rx = rx; tx = tx }) m
  ]
]

-- `WgStatParseTraffic`: entries whose numbers do not parse are left out.
unfoldable pub parse_traffic : List Traffic → TrafficMap → TrafficMap
unfolding replace_all standard_key put_traffic one_traffic
parse_traffic [] m = m
parse_traffic (t ∷ ts) m = parse_traffic ts (one_traffic t m)

put_seen : String → Bytes × Time → LastActivityMap → LastActivityMap
put_seen vpn x m =
    if str_eq vpn "wireguard"
    then record m { wg = x ∷ m.wg }
    else if str_eq vpn "ipsec"
    then record m { ipsec = x ∷ m.ipsec }
    else if str_eq vpn "cloak-openvpn"
    then record m { ovc = x ∷ m.ovc }
    else if str_eq vpn "cloak-ss"
    then record m { olc = x ∷ m.olc }
    else if str_eq vpn "outline-ss"
    then record m { outline = x ∷ m.outline }
    else if str_eq vpn "proto0"
    then record m { proto0 = x ∷ m.proto0 }
    else m

one_seen : LastSeen → LastActivityMap → LastActivityMap
one_seen t m = elim (parse_int t.timestamp) [
  | none ↦ m
  | some ts ↦ if ts.1 == 0 then m else put_seen t.vpn (standard_key t.key, unix_time ts) m
]

-- `WgStatParseLastActivity`
unfoldable pub parse_last_activity : List LastSeen → LastActivityMap → LastActivityMap
unfolding replace_all standard_key unix_time put_seen one_seen
parse_last_activity [] m = m
parse_last_activity (t ∷ ts) m = parse_last_activity ts (one_seen t m)

put_endpoint : String → Bytes × Option String → EndpointMap → EndpointMap
put_endpoint vpn x m =
    if str_eq vpn "wireguard"
    then record m { wg = x ∷ m.wg }
    else if str_eq vpn "ipsec"
    then record m { ipsec = x ∷ m.ipsec }
    else if str_eq vpn "cloak-openvpn"
    then record m { ovc = x ∷ m.ovc }
    else if str_eq vpn "cloak-ss"
    then record m { olc = x ∷ m.olc }
    else if str_eq vpn "outline-ss"
    then record m { outline = x ∷ m.outline }
    else if str_eq vpn "proto0"
    then record m { proto0 = x ∷ m.proto0 }
    else m

one_endpoint : (String → Option String) → Endpoint → EndpointMap → EndpointMap
one_endpoint parse_prefix t m =
    if str_eq t.subnet "(none)" then m else elim (parse_prefix t.subnet) [
      | none ↦ m
      | some prefix ↦ put_endpoint t.vpn (standard_key t.key, some prefix) m
    ]

-- `WgStatParseEndpoints`
unfoldable pub parse_endpoints :
    (String → Option String) → List Endpoint → EndpointMap → EndpointMap
unfolding replace_all standard_key put_endpoint one_endpoint
parse_endpoints f [] m = m
parse_endpoints f (t ∷ ts) m = parse_endpoints f ts (one_endpoint f t m)

-- `WgStatParse`: only the time of the statistics must parse.
unfoldable pub wg_stat_parse : (String → Option String) → WgStatsIn → Result Parsed
unfolding unix_time
wg_stat_parse parse_prefix resp = elim (parse_int resp.timestamp) [
  | none ↦ err parse_failed
  | some ts ↦ ok (record {
    timestamp = unix_time ts;
    traffic =
        parse_traffic resp.traffic
          (record { wg = []; ipsec = []; ovc = []; outline = []; proto0 = [] });
    last_seen =
        parse_last_activity resp.last_seen
          (record { wg = []; ipsec = []; ovc = []; olc = []; outline = []; proto0 = [] });
    endpoints =
        parse_endpoints parse_prefix resp.endpoints
          (record { wg = []; ipsec = []; ovc = []; olc = []; outline = []; proto0 = [] });
  })
]
