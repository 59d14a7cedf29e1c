-- ===== src/Vpn/Client.antt =====
-- internal/vpn/endpoint/client.go: the calls of the endpoint by the users' service. Unlike the calls
-- of the storage, they take no code but "0", and send the request whatever the address is.
use keydesk.Storage.Types.{no_addr}
use keydesk.Storage.Types.{Bytes}
use keydesk.World.Api.{AddrPort}
use keydesk.Prelude.{◌++◌, String, [], if◌then◌else◌, none, some, ◌∷◌}
use text.Mathlib.Text.{◌==◌ as str_eq}
use keydesk.World.{
  Reply, answer, no_answer, Request, Result, ok, err, api_failed, api_payload, Body, M, peer_add,
  peer_del,
}

-- `decodeResponse`: the certificate of the body, where its code is "0"
unfoldable pub decode_response : Body → Result String
decode_response b = elim b.client_certificate [
  | none ↦ err api_payload
  | some cert ↦ if str_eq b.code "0" then ok cert else err api_failed
]

unfoldable pub client_answer : Request → Reply → M String
client_answer q no_answer w = (err api_failed, w)
client_answer q (answer b) w = elim (decode_response b) [
  | err e ↦ (err e, w)
  | ok cert ↦ (ok cert, record w { accepted = w.accepted ++ q ∷ [] })
]

-- `request` and `decodeResponse`; a client for no address has no one to call.
unfoldable pub client_call : AddrPort → Request → M String
client_call to q w = elim to.addr [
  | no_addr ↦ (err api_failed, w)
  | _ ↦ elim w.replies [
    | [] ↦ (err api_failed, w)
    | r ∷ rest ↦ client_answer q r (record w { replies = rest })
  ]
]

-- `PeerAdd`: the parameters travel in the query, of which the request keeps the endpoint's key.
unfoldable pub client_peer_add : AddrPort → Bytes → Bytes → M String
client_peer_add to pub_key iface = client_call to (peer_add pub_key iface)

-- `PeerDel`
unfoldable pub client_peer_del : AddrPort → Bytes → Bytes → M String
client_peer_del to pub_key ep_pub = client_call to (peer_del pub_key ep_pub)
