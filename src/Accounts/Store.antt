-- ===== src/Accounts/Store.antt =====
-- pkg/accounts/cache.go: the accounts, their selection in turn, and their merging. `saved` is
-- whether `saveLocked` writes the file; times are in seconds. The lock makes each operation one
-- step.
pub mod Turn
pub mod Merge
pub mod Refresh
use m365plus.Base.{
  ℕ, ◌+◌, ◌%◌, Bool, true, false, not, ◌&&◌, ◌||◌, List, [], ◌∷◌, ◌++◌, map, Option, none, some,
  ltb, leb, ◌==◌, nat_eq, bytes_eq, if◌then◌else◌, length, get_elem?, filterb, Bytes,
}
use m365plus.Base.Text.{codes, trim_space}

pub record AccountToken : Type 0 where
  pub id : Bytes
  pub email : Bytes
  pub display_name : Bytes
  pub status : Bytes
  pub access_token : Bytes
  pub refresh_token : Bytes
  pub expires_at : ℕ
  pub updated_at : ℕ
  pub oid : Bytes
  pub tid : Bytes
  pub client_id : Bytes

-- The fields of pkg/accounts/token.go that the store reads.
pub record TokenSet : Type 0 where
  pub access_token : Bytes
  pub refresh_token : Bytes
  pub expires_at : ℕ
  pub email : Bytes
  pub display_name : Bytes
  pub home_oid : Bytes
  pub tenant_id : Bytes

pub record Store : Type 0 where
  pub accounts : List AccountToken
  pub next_idx : ℕ
  pub refresh_interval : ℕ

unfoldable pub first_non_empty : List Bytes → Bytes
first_non_empty [] = []
first_non_empty (v ∷ vs) = if not (trim_space v == []) then v else first_non_empty vs

abbrev pub or_else : Bytes → Bytes → Bytes
or_else v w = if v == [] then w else v

-- The repair of older entries in `OpenStore`.
unfoldable pub normalize : AccountToken → AccountToken
normalize a = let oid = or_else a.oid a.id in record a { oid = oid; id = or_else a.id oid }

unfoldable pub open_store : List AccountToken → Store
open_store read = record { accounts = map normalize read; next_idx = 0; refresh_interval = 0 }

-- `Import` on one record: the repair, the test, and the first place where it holds.
unfoldable pub identify : AccountToken → AccountToken
identify a = let id = or_else a.id a.oid in record a { id = id; oid = or_else a.oid id }

unfoldable pub same_account : AccountToken → AccountToken → Bool
same_account new old =
    (not (new.id == []) && (old.id == new.id || old.oid == new.id))
    || (not (new.oid == []) && (old.id == new.oid || old.oid == new.oid))
    || (not (new.email == []) && old.email == new.email)

-- The first account that passes a test is replaced; the flag says whether there was one.
unfoldable pub replace_first :
    (AccountToken → Bool)
    → (AccountToken → AccountToken)
    → List AccountToken
    → List AccountToken × Bool
replace_first test f [] = ([], false)
replace_first test f (a ∷ more) =
    let (rest, hit) = replace_first test f more in
    if test a then (f a ∷ more, true) else (a ∷ rest, hit)

pub record Merged : Type 0 where
  pub accounts : List AccountToken
  pub added : ℕ
  pub updated : ℕ

unfoldable pub merge_one : AccountToken → Merged → Merged
merge_one incoming m =
    let new = identify incoming in
    let (accounts, hit) = replace_first (same_account new) (λ _. new) m.accounts in
    if hit
    then record { accounts = accounts; added = m.added; updated = m.updated + 1 }
    else record { accounts = m.accounts ++ new ∷ []; added = m.added + 1; updated = m.updated }

unfoldable pub merge_all : List AccountToken → Merged → Merged
merge_all [] m = m
merge_all (a ∷ more) m = merge_all more (merge_one a m)

-- `Import`: the counts, or the error of the save, and the store.
unfoldable pub import_accounts : List AccountToken → Bool → Store → Option (ℕ × ℕ) × Store
import_accounts imported saved s =
    let m = merge_all imported (record { accounts = s.accounts; added = 0; updated = 0 }) in
    if saved then (some (m.added, m.updated), record s { accounts = m.accounts }) else (none, s)

-- `Upsert`; `made_up` is the id made from the clock, `client` what `ClientID` answers.
unfoldable pub account_of : TokenSet → Bytes → Bytes → ℕ → AccountToken
account_of tok made_up client now =
    let id = or_else (or_else tok.home_oid tok.email) made_up in
    record {
      id = id;
      email = tok.email;
      display_name = tok.display_name;
      status = codes "online";
      access_token = tok.access_token;
      refresh_token = tok.refresh_token;
      expires_at = tok.expires_at;
      updated_at = now;
      oid = first_non_empty (tok.home_oid ∷ id ∷ []);
      tid = tok.tenant_id;
      client_id = client;
    }

unfoldable pub is_upsert_of : AccountToken → AccountToken → Bool
is_upsert_of acc old = old.id == acc.id || (not (acc.email == []) && old.email == acc.email)

unfoldable pub inherit : AccountToken → AccountToken → AccountToken
inherit acc old = record acc {
  refresh_token = or_else acc.refresh_token old.refresh_token;
  tid = or_else acc.tid old.tid;
  oid = or_else acc.oid old.oid;
}

unfoldable pub find_account : (AccountToken → Bool) → List AccountToken → Option AccountToken
find_account test [] = none
find_account test (a ∷ more) = if test a then some a else find_account test more

-- The account that the call answers, and the store; the error of the save is `saved` itself.
unfoldable pub put_account : AccountToken → Store → AccountToken × Store
put_account acc s = elim (find_account (is_upsert_of acc) s.accounts) [
  | some old ↦ (
    inherit acc old,
    record s { accounts = (replace_first (is_upsert_of acc) (inherit acc) s.accounts).0 },
  )
  | none ↦ (acc, record s { accounts = s.accounts ++ acc ∷ [] })
]

unfoldable pub upsert : TokenSet → Bytes → Bytes → ℕ → Store → AccountToken × Store
upsert tok made_up client now s = put_account (account_of tok made_up client now) s

unfoldable pub delete : Bytes → Store → Store
delete id s = record s { accounts = filterb (λ a. not (a.id == id)) s.accounts }

unfoldable pub is_named : Bytes → AccountToken → Bool
is_named id a = a.id == id || a.oid == id || a.email == id

unfoldable pub get : Bytes → Store → Option AccountToken
get id s = find_account (is_named id) s.accounts

unfoldable pub first : Store → Option AccountToken
first s = get_elem? s.accounts 0

unfoldable pub next : Store → Option AccountToken × Store
next s =
    let n = length s.accounts in
    if n == 0
    then (none, s)
    else (get_elem? s.accounts (s.next_idx % n), record s { next_idx = (s.next_idx + 1) % n })
