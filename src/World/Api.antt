-- ===== src/World/Api.antt =====
-- vpnapi: the calls of the endpoint's API. `accepted` lists the requests that a caller took as done.
use Prim.Native.Nat.{◌/◌}
use text.Mathlib.Text.{◌==◌}
use keydesk.Prelude.{ℕ, [], ◌∷◌, ◌++◌, some, none, ◌*◌, ◌+◌, Option, ◌^◌, if◌then◌else◌}
use keydesk.Storage.Types.{Addr, no_addr, ip4, ip6, Bytes}
use keydesk.World.{
  World, Body, Reply, answer, no_answer, Request, peer_add, peer_del, wg_add, wg_del, stat,
  WgStatsIn, M, api_failed, api_payload, ok, err, Result,
}

pub record AddrPort : Type 0 where
  pub addr : Addr
  pub port : ℕ

abbrev pub no_addr_port : AddrPort
no_addr_port = record { addr = no_addr; port = 0 }

-- The four bytes that `copy(buf[2:6], addr.AsSlice())` writes, as a number.
first_four : Addr → ℕ
first_four no_addr = 0
first_four (ip4 n) = n
first_four (ip6 n) = n / 2 ^ 96

-- `CalcAPIAddrPort`: fdcc:<the four bytes>::3, port 8080.
unfoldable pub calc_api_addr_port : Addr → AddrPort
unfolding first_four
calc_api_addr_port addr = record {
  addr = ip6 (0xfdcc * 2 ^ 112 + first_four addr * 2 ^ 80 + 3);
  port = 8080;
}

-- What `getAPIRequest` returns: a body, a body whose code is not "0", or another error.
pub data Answer : Type 0 where
  got : Body → Answer
  refused : Body → Answer
  failed : Answer

-- The body "{}" of a test request.
abbrev pub test_body : Body
test_body = record {
  code = "";
  client_certificate = some "";
  stats = some (record { timestamp = ""; traffic = []; last_seen = []; endpoints = [] });
}

read_answer : Reply → Answer
read_answer no_answer = failed
read_answer (answer b) = if b.code == "0" then got b else refused b

-- `getAPIRequest`: with no valid address nothing is sent.
unfoldable pub get_api_request : Addr → World → Answer × World
unfolding read_answer
get_api_request no_addr w = (got test_body, w)
get_api_request _ w = elim w.replies [
  | [] ↦ (failed, w)
  | r ∷ rest ↦ (read_answer r, record w { replies = rest })
]

abbrev done {ℓ} : {A : Type ℓ} → Request → A → World → Result A × World
done q a w = (ok a, record w { accepted = w.accepted ++ q ∷ [] })

-- Code 151 is only a warning.
peer_added : Request → Answer × World → Result Body × World
peer_added q (got b, w) = done q b w
peer_added q (refused b, w) = if b.code == "151" then done q b w else (err api_failed, w)
peer_added q (failed, w) = (err api_failed, w)

-- `WgPeerAdd`, by the two keys; the other parameters only travel in the query.
unfoldable pub wg_peer_add : AddrPort → Bytes → Bytes → M Body
unfolding peer_added
wg_peer_add actual key iface w = peer_added (peer_add key iface) (get_api_request actual.addr w)

simply_done : Request → Answer × World → Result (Unit {0}) × World
simply_done q (got b, w) = done q tt w
simply_done q (_, w) = (err api_failed, w)

-- `WgPeerDel`
unfoldable pub wg_peer_del : AddrPort → Bytes → Bytes → M (Unit {0})
unfolding simply_done
wg_peer_del actual key iface w = simply_done (peer_del key iface) (get_api_request actual.addr w)

-- `WgAdd`
unfoldable pub wg_add_iface : AddrPort → Bytes → M (Unit {0})
unfolding simply_done
wg_add_iface actual priv w = simply_done (wg_add priv) (get_api_request actual.addr w)

-- Codes 128 and 146 are only warnings; after 146 the call waits.
deleted : Request → Answer × World → Result (Unit {0}) × World
deleted q (got b, w) = done q tt w
deleted q (refused b, w) =
    if b.code == "128"
    then done q tt w
    else if b.code == "146"
    then done q tt w
    else (err api_failed, w)
deleted q (failed, w) = (err api_failed, w)

-- `WgDel`
unfoldable pub wg_del_iface : AddrPort → Bytes → M (Unit {0})
unfolding deleted
wg_del_iface actual priv w = deleted (wg_del priv) (get_api_request actual.addr w)

stats_read : Request → Option WgStatsIn → World → Result WgStatsIn × World
stats_read q none w = (err api_payload, w)
stats_read q (some s) w = done q s w

stats_answer : Request → Answer × World → Result WgStatsIn × World
stats_answer q (got b, w) = stats_read q b.stats w
stats_answer q (_, w) = (err api_failed, w)

-- `WgStat`: the body is never nil here.
unfoldable pub wg_stat : AddrPort → Bytes → M WgStatsIn
unfolding stats_answer stats_read
wg_stat actual iface w = stats_answer (stat iface) (get_api_request actual.addr w)
