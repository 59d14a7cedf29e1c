-- ===== src/Vpn/Generators.antt =====
-- The generators of internal/vpn/wg, ss, cloak, openvpn, ipsec and proto0.
pub use keydesk.Vpn.Types.{
  NaclBox, WgSecret, Sealed, LoginSecret, Proto0Secret, CsrSecret, Secrets, WgRaw, SsConfig,
  CloakConfig, OpenvpnConfig, IpsecClient, Proto0Client, Generated, Codecs, nothing_generated,
}
use keydesk.Storage.Brigades.{get_endpoint_host}
use keydesk.Storage.Types.{User, Brigade}
use keydesk.Prelude.{String, if◌then◌else◌, none, some, ◌∷◌}
use Prim.Native.String.{◌++◌ as str_append}
use keydesk.World.{Result, ok, err, bad_key, generation_failed, ca_failed}

module _ (k : Codecs) (s : Secrets) (b : Brigade) where
  host_of : User → String
  host_of u = get_endpoint_host k.addr_text b u

  -- `wg.Generate`
  unfoldable pub wg_generate : Generated → Result Generated
  unfolding host_of
  wg_generate g =
      if k.is_key b.wg_public_key
      then elim s.wg [
        | none ↦ err generation_failed
        | some x ↦ ok (record g {
          user = record g.user {
            wg_public_key = x.public_key;
            wg_psk_router_enc = x.sealed.router;
            wg_psk_shuffler_enc = x.sealed.shuffler;
          };
          ep_data =
              ("wg-public-key", b.wg_public_key)
              ∷ ("wg-psk-key", x.sealed.router)
              ∷ (
                "allowed-ips",
                str_append (k.addr_text g.user.ipv4_addr)
                    (str_append "/32," (str_append (k.addr_text g.user.ipv6_addr) "/128")),
              )
              ∷ g.ep_data;
          wg = some (record {
            key = x.private_key;
            public_of_key = x.public_key;
            addresses = (g.user.ipv4_addr, g.user.ipv6_addr);
            dns = (b.dns4, b.dns6);
            public_key = b.wg_public_key;
            preshared_key = x.psk;
            host = host_of g.user;
            port = b.endpoint_port;
          });
        })
      ]
      else err bad_key

  -- `ss.Generate`
  unfoldable pub ss_generate : Generated → Result Generated
  unfolding host_of
  ss_generate g = elim s.ss [
    | none ↦ err generation_failed
    | some x ↦ ok (record g {
      user = record g.user {
        outline_secret_router_enc = x.sealed.router;
        outline_secret_shuffler_enc = x.sealed.shuffler;
      };
      ep_data = ("outline-ss-password", x.sealed.router) ∷ g.ep_data;
      ss = some (record { host = host_of g.user; port = b.outline_port; password = x.plain_text });
    })
  ]

  -- `cloak.Generate`
  unfoldable pub cloak_generate : Generated → Result Generated
  unfolding host_of
  cloak_generate g =
      if k.is_key b.wg_public_key
      then elim s.bypass_id [
        | none ↦ err generation_failed
        | some x ↦ ok (record g {
          user = record g.user {
            cloak_bypass_uid_router_enc = x.sealed.router;
            cloak_bypass_uid_shuffler_enc = x.sealed.shuffler;
          };
          ep_data = ("cloak-uid", x.sealed.router) ∷ g.ep_data;
          cloak = some (record {
            host = host_of g.user;
            public_key = b.wg_public_key;
            uid = x.plain_text;
            server_name = b.cloak_fake_domain;
          });
        })
      ]
      else err bad_key

  -- `openvpn.Generate`: the certificate comes from the endpoint later.
  unfoldable pub openvpn_generate : Generated → Result Generated
  openvpn_generate g = elim s.csr [
    | none ↦ err generation_failed
    | some x ↦ elim (k.ungzip b.ov_ca_cert_pem_gzip_base64) [
      | none ↦ err ca_failed
      | some ca ↦ ok (record g {
        user = record g.user { ov_csr_gzip_base64 = x.csr };
        ep_data = ("openvpn-client-csr", x.csr) ∷ g.ep_data;
        openvpn = some (record { ip = b.endpoint_ipv4; ca = ca; cert = ""; key = x.key_pem });
      })
    ]
  ]

  -- `ipsec.Generate`
  unfoldable pub ipsec_generate : Generated → Result Generated
  unfolding host_of
  ipsec_generate g = elim s.login [
    | none ↦ err generation_failed
    | some x ↦ ok (record g {
      user = record g.user {
        ipsec_username_router_enc = x.username.sealed.router;
        ipsec_username_shuffler_enc = x.username.sealed.shuffler;
        ipsec_password_router_enc = x.password.sealed.router;
        ipsec_password_shuffler_enc = x.password.sealed.shuffler;
      };
      ep_data =
          ("l2tp-username", x.username.sealed.router)
          ∷ ("l2tp-password", x.password.sealed.router)
          ∷ g.ep_data;
      l2tp = some (record {
        username = x.username.plain_text;
        password = x.password.plain_text;
        host = host_of g.user;
        psk = b.ipsec_psk;
      });
    })
  ]

  -- `proto0.Generate`
  unfoldable pub proto0_generate : Generated → Result Generated
  unfolding host_of
  proto0_generate g = elim s.proto0 [
    | none ↦ err generation_failed
    | some x ↦ ok (record g {
      user = record g.user {
        proto0_secret_router_enc = x.sealed.router;
        proto0_secret_shuffler_enc = x.sealed.shuffler;
      };
      ep_data = ("p0-id", x.sealed.router) ∷ g.ep_data;
      proto0 = some (record {
        public_key = b.wg_public_key;
        id = x.long_id;
        short_id = x.short_id;
        host = host_of g.user;
        server_name = b.proto0_fake_domain;
        port = b.proto0_port;
      });
    })
  ]
