-- ===== src/WebAdmin/AccountRotation.antt =====
-- pkg/webadmin/admin.go: which account serves a request. `is_available` is `Available` of
-- account_health.go at the time of the request. The functions here answer the id that the code
-- then passes to `EnsureValid`.
pub mod Reach
pub mod Bounds
use m365plus.Base.{
  ℕ, zero, suc, ◌+◌, Bool, true, false, not, ◌&&◌, [], Option, none, some, ltb, ◌==◌, nat_eq,
  bytes_eq, if◌then◌else◌, Bytes,
}
use m365plus.Accounts.Store.{AccountToken, Store, next, get}

abbrev pub max_account_probe : ℕ
max_account_probe = 16

pub record Rotation : Type 0 where
  pub tokens : Store
  pub rotation_id : Bytes
  pub rotation_count : ℕ

pub data Picked : Type 0 where
  picked : Bytes → Picked
  no_accounts : Picked
  none_healthy : Picked

module _ (is_available : Bytes → Bool) where
  abbrev pub try_next :
      (Store → Picked × Store) → Bytes → Option AccountToken × Store → Picked × Store
  try_next go avoid (none, s) = (no_accounts, s)
  try_next go avoid (some a, s) =
      let further = go s in
      if not (avoid == []) && a.id == avoid
      then further
      else if not (is_available a.id)
      then further
      else (picked a.id, s)

  -- The loop over `Next`; an account may be avoided.
  unfoldable pub probe : ℕ → Bytes → Store → Picked × Store
  probe zero avoid s = (none_healthy, s)
  probe (suc left) avoid s = try_next (probe left avoid) avoid (next s)

  -- The account of the rotation, if it is there and healthy.
  unfoldable pub current : Rotation → Option Bytes
  current r = if r.rotation_id == [] then none else elim (get r.rotation_id r.tokens) [
    | none ↦ none
    | some a ↦ if is_available a.id then some a.id else none
  ]

  abbrev pub settle_on : Rotation → Picked × Store → Picked × Rotation
  settle_on r (picked id, s) =
      (picked id, record { tokens = s; rotation_id = id; rotation_count = 1 })
  settle_on r (no_accounts, s) = (no_accounts, record r { tokens = s })
  settle_on r (none_healthy, s) = (none_healthy, record r { tokens = s })

  abbrev pub keep_or : Rotation → Option Bytes → Picked × Rotation → Picked × Rotation
  keep_or kept none other = other
  keep_or kept (some id) other = (picked id, kept)

  -- `nextRotationAccount`; the settings are `AutoRotateAccounts` and `MaxRequestsPerAccount`.
  unfoldable pub next_rotation_account : Bool → ℕ → Rotation → Picked × Rotation
  next_rotation_account true max_requests r =
      let probed = settle_on r (probe max_account_probe [] r.tokens) in
      let cycled = settle_on r (probe (max_account_probe + 1) [] r.tokens) in
      if max_requests == 0
      then cycled
      else if ltb r.rotation_count max_requests
      then keep_or (record r { rotation_count = r.rotation_count + 1 }) (current r) probed
      else probed
  next_rotation_account false max_requests r =
      let cleared = record r { rotation_id = [] } in
      keep_or r (current r) (settle_on cleared (probe max_account_probe [] r.tokens))

  -- `nextHealthyAccount`.
  abbrev pub next_healthy_account : Bytes → Store → Picked × Store
  next_healthy_account avoid s = probe max_account_probe avoid s
