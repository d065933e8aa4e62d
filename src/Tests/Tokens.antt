-- ===== src/Tests/Tokens.antt =====
-- Runs of the theorems on the account store.
use m365plus.Base.{
  Bool, ◌<◌, ◌≡◌, refl, true, [], ◌∷◌, none, some, arith, ==_apart, string_eq, bytes_eq, bytes_beq,
  Bytes,
}
use m365plus.Base.Text.{codes}
use m365plus.Accounts.Store
use m365plus.Accounts.Store.{AccountToken, TokenSet}
use m365plus.Accounts.Store.Merge.{old_refresh_token, upsert-find, count_id, upsert_duplicate_id}
use m365plus.Accounts.Store.Refresh.{Sources, Justified, ensure_valid, ensure_valid-Justified}
use m365plus.WebAdmin.AccountRotation.{Rotation, next_rotation_account}
use m365plus.WebAdmin.AccountRotation.Reach.{Served, next_rotation_account-Served}

abbrev account : Bytes → Bytes → AccountToken
account id email = record {
  id = id;
  email = email;
  display_name = [];
  status = codes "ok";
  access_token = codes "t";
  refresh_token = codes "r";
  expires_at = 100;
  updated_at = 1;
  oid = [];
  tid = [];
  client_id = [];
}

abbrev ann : AccountToken
ann = account (codes "1") (codes "ann")

abbrev bob : AccountToken
bob = account (codes "2") (codes "bob")

abbrev accounts : Store.Store
accounts = record { accounts = ann ∷ bob ∷ []; next_idx = 1; refresh_interval = 60 }

-- The email of the first account with the id of the second.
abbrev mixed : TokenSet
mixed = record {
  access_token = codes "new";
  refresh_token = [];
  expires_at = 200;
  email = codes "ann";
  display_name = [];
  home_oid = codes "2";
  tenant_id = [];
}

upsert-find_example :
    let acc = Store.account_of mixed (codes "u") (codes "c") 5 in
    let (answer, s') = Store.upsert mixed (codes "u") (codes "c") 5 accounts in
    (Store.find_account (Store.is_upsert_of answer) s'.accounts ≡ some answer)
    × (answer.id ≡ acc.id)
    × (answer.access_token ≡ codes "new")
    × (answer.refresh_token
        ≡ Store.or_else []
            (old_refresh_token (Store.find_account (Store.is_upsert_of acc) accounts.accounts)))
upsert-find_example = upsert-find mixed (codes "u") (codes "c") 5 accounts

upsert_duplicate_id_example :
    1
    < count_id
        (Store.account_of mixed (codes "u") (codes "c") 5).id
        (Store.upsert mixed (codes "u") (codes "c") 5 accounts).1.accounts
unfolding Store.account_of bytes_beq
upsert_duplicate_id_example =
    upsert_duplicate_id mixed (codes "u") (codes "c") 5 accounts ann (bob ∷ []) refl
      (==_apart (codes "ann") [] refl) refl (omega arith)

abbrev no_source : Sources
no_source = record { exchange = λ r. none; sso = none; cdp = none }

ensure_valid-Justified_example :
    let (answer, s') =
      ensure_valid no_source (codes "u") (codes "c") 90 true (codes "2") accounts in
    Justified no_source 90 bob accounts answer s'
unfolding Store.get Store.find_account Store.is_named bytes_beq
ensure_valid-Justified_example =
    ensure_valid-Justified no_source (codes "u") (codes "c") (codes "2") 90 true bob accounts refl

abbrev rotating : Rotation
rotating = record {
  tokens = record { accounts = bob ∷ []; next_idx = 3; refresh_interval = 0 };
  rotation_id = [];
  rotation_count = 0;
}

abbrev always_healthy : Bytes → Bool
always_healthy id = true

next_rotation_account-Served_example :
    Served always_healthy (next_rotation_account always_healthy true 2 rotating).0
next_rotation_account-Served_example =
    next_rotation_account-Served always_healthy true 2 0 rotating bob refl refl (omega arith)
