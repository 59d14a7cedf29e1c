-- ===== src/Storage/Db.antt =====
-- keydesk/storage/db.go: the brigade's database: opening it, and committing a change.
pub mod Upgrades
use text.Mathlib.Text.{◌==◌ as str_eq}
use keydesk.Prelude.{ℕ, ◌&&◌, ◌==◌, Bool, String, false, if◌then◌else◌, ltb, not, true, ◌||◌}
use keydesk.Storage.Types.{Brigade, Addr, no_addr, ip4, ip6}
use keydesk.World.{
  M, pure, raise, ◌>>=◌, ◌>>◌, Contents, empty, json, garbage, decode_failed, unknown_brigade,
  already_exists, wrong_configuration,
}
use keydesk.World.FileDb.{open_file_db, backup, encode, commit}
use keydesk.World.Api.{AddrPort, calc_api_addr_port}

pub record BrigadeStorage : Type 0 where
  pub brigade_id : String
  pub brigade_filename : String
  pub brigade_spinlock : String
  pub api_addr_port : AddrPort
  pub calculated_addr_port : AddrPort
  pub actual_addr_port : AddrPort
  pub max_users : ℕ
  pub monthly_quota_remaining : ℕ
  pub max_user_inactivity_period : ℕ

-- `commitBrigade`
unfoldable pub commit_brigade : Brigade → M (Unit {0})
commit_brigade b = do encode b; commit

-- `SelfCheck`
unfoldable pub self_check : BrigadeStorage → M (Unit {0})
self_check db =
    if str_eq db.brigade_filename ""
      || str_eq db.brigade_spinlock ""
      || str_eq db.brigade_id ""
      || db.max_users == 0
      || db.max_user_inactivity_period == 0
      || db.monthly_quota_remaining == 0
    then raise wrong_configuration
    else pure tt

-- `f.Decoder().Decode(data)`: an empty file ends at once, which is an error of its own.
decoded : Contents Brigade → M Brigade
decoded empty = raise decode_failed
decoded garbage = raise decode_failed
decoded (json b) = pure b

check_id : BrigadeStorage → Brigade → M (Unit {0})
check_id db b = if str_eq b.brigade_id db.brigade_id then pure tt else raise unknown_brigade

default_mode : Brigade → Brigade
default_mode b = if str_eq b.mode "" then record b { mode = "brigade" } else b

-- The file of an older version spells the name of the domain another way.
legacy_domain : Brigade → Brigade
legacy_domain b =
    if str_eq b.cloak_fake_domain "" && not (str_eq b.cloak_faek_domain "")
    then record b { cloak_fake_domain = b.cloak_faek_domain }
    else b

default_port : Brigade → Brigade
default_port b =
    if ltb b.ver 7 && b.endpoint_port == 0 then record b { endpoint_port = 51820 } else b

-- What reading makes of the stored brigade.
unfoldable pub upgraded : Brigade → Brigade
unfolding default_mode legacy_domain default_port
upgraded b = default_port (legacy_domain (default_mode b))

-- What follows the opening of the files: the checks, and the backup.
unfoldable pub read_on : BrigadeStorage → Contents Brigade → M Brigade
unfolding decoded check_id
read_on db contents = do b ← decoded contents; check_id db b; backup; pure (upgraded b)

-- `openBrigadeWithReading`, `openWithReading` and `OpenDbToModify`, which differ in their messages
unfoldable pub open_with_reading : BrigadeStorage → M Brigade
open_with_reading db = do contents ← open_file_db; read_on db contents

is_valid : Addr → Bool
is_valid no_addr = false
is_valid (ip4 n) = true
is_valid (ip6 n) = true

is_unspecified : Addr → Bool
is_unspecified no_addr = false
is_unspecified (ip4 n) = n == 0
is_unspecified (ip6 n) = n == 0

-- The endpoint's address: the calculated one where the configuration says 0.0.0.0.
unfoldable pub with_addresses : BrigadeStorage → Addr → BrigadeStorage
unfolding is_valid is_unspecified
with_addresses db endpoint =
    let calculated = calc_api_addr_port endpoint in
    record db {
      calculated_addr_port = calculated;
      actual_addr_port =
          (if is_valid db.api_addr_port.addr && is_unspecified db.api_addr_port.addr
            then calculated
            else db.api_addr_port);
    }

-- `SelfCheckAndInit`: the storage with its addresses set
unfoldable pub self_check_and_init : BrigadeStorage → M BrigadeStorage
self_check_and_init db = do
  self_check db
  b ← open_with_reading db
  pure (with_addresses db b.endpoint_ipv4)

-- `CalculatedAPIAddress`
unfoldable pub calculated_api_address : BrigadeStorage → Addr × Bool
unfolding is_valid is_unspecified
calculated_api_address db = (
  db.calculated_addr_port.addr,
  is_valid db.api_addr_port.addr && is_unspecified db.api_addr_port.addr,
)

-- `openBrigadeWithoutReading`: a new file is empty
fresh : Contents Brigade → M (Unit {0})
fresh empty = pure tt
fresh garbage = raise decode_failed
fresh (json b) = raise already_exists

-- `openWithoutReading`, before it fills in the new brigade
unfoldable pub open_without_reading : BrigadeStorage → String → M (Unit {0})
unfolding fresh
open_without_reading db brigade_id =
    if str_eq brigade_id db.brigade_id
    then (do contents ← open_file_db; fresh contents)
    else raise unknown_brigade
