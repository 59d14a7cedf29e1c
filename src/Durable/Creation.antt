-- ===== src/Durable/Creation.antt =====
-- Creating a user where no call fails: what is stored, what is returned, and what the endpoint is told.
use keydesk.Clock.{Time}
use keydesk.Storage.VpnConfigs.{ConfigsImplemented}
use keydesk.Storage.Types.{Brigade, User}
use keydesk.World.{World, Reply, Request}
use keydesk.Storage.Db.{BrigadeStorage, upgraded}
use keydesk.Prelude.{◌++◌, List, String, [], ◌∷◌, length}
use text.Mathlib.Text.{◌==◌ as str_eq}
use keydesk.Storage.Users.{proto0_domain, new_user, add_user, user_config}
use keydesk.Storage.Accounts.{NewUser, UserConfig}
use keydesk.Storage.Users.Assemble.{Draws, Assembled}

-- The world after the endpoint has added a peer.
abbrev told : World → List Reply → Request → World
told w rest q = record w { replies = rest; accepted = w.accepted ++ q ∷ [] }

module _ (db : BrigadeStorage) (cfgs : ConfigsImplemented) (a : NewUser) (d : Draws) (ts : Time)
    (b : Brigade) (s : Assembled) (pem cert : String) where
  -- The user that is stored, and the brigade with it.
  abbrev pub created_user : User
  created_user = new_user db cfgs a a.person s (proto0_domain cfgs (upgraded b) d.domain) ts

  abbrev pub with_created : Brigade
  with_created = add_user created_user (upgraded b)

  abbrev pub returned : UserConfig
  returned =
      user_config db cfgs (upgraded b) s pem cert (proto0_domain cfgs (upgraded b) d.domain)
        (length with_created.users)
