-- ===== src/WebAdmin/AccountRotation/Bounds.antt =====
-- pkg/webadmin/admin.go: only healthy accounts are picked, and how often in a row one is.
use m365plus.Base.{
  ℕ, zero, suc, ◌+◌, ◌≤◌, ◌≡◌, ◌⊎◌, Bool, true, false, not, ◌&&◌, [], Option, none, some, ◌==◌,
  nat_eq, bytes_eq, Bytes, on_each, arith,
}
use m365plus.Accounts.Store.{AccountToken, Store, next, get}
use m365plus.WebAdmin.AccountRotation.{
  Rotation, Picked, picked, no_accounts, none_healthy, try_next, probe,
}

module _ (is_available : Bytes → Bool) where
  -- The account that the rotation's id names.
  abbrev pub Named : Rotation → Bytes → Type 0
  Named r id = (a : AccountToken) × (get r.rotation_id r.tokens ≡ some a) × (a.id ≡ id)

  -- What is picked is healthy, and is not the account to avoid.
  abbrev pub IsHealthy : Bytes → Picked → Type 0
  IsHealthy avoid (picked id) =
      (is_available id ≡ true) × ((not (avoid == []) && id == avoid) ≡ false)
  IsHealthy avoid no_accounts = Unit {0}
  IsHealthy avoid none_healthy = Unit {0}

  try_next-IsHealthy :
      (go : Store → Picked × Store) (avoid : Bytes) (x : Option AccountToken × Store)
      → ((t : Store) → IsHealthy avoid (go t).0)
      → IsHealthy avoid (try_next is_available go avoid x).0
  try_next-IsHealthy go avoid (none, t) h = tt
  try_next-IsHealthy go avoid (some a, t) h =
      on_each (λ (x : Picked × Store). IsHealthy avoid x.0) (not (avoid == []) && a.id == avoid)
        (λ shunned. h t)
        (λ apart.
          on_each (λ (x : Picked × Store). IsHealthy avoid x.0) (not (is_available a.id))
            (λ ill. h t) (λ well. (ground arith, apart)))

  -- The account that a failover picks is healthy and is not the one that failed.
  pub probe-IsHealthy :
      (fuel : ℕ) (avoid : Bytes) (s : Store) → IsHealthy avoid (probe is_available fuel avoid s).0
  unfolding probe
  probe-IsHealthy zero avoid s = tt
  probe-IsHealthy (suc fuel) avoid s =
      try_next-IsHealthy (probe is_available fuel avoid) avoid (next s) (probe-IsHealthy fuel avoid)

  -- What is counted: an account that stays, `more` on its count, within the limit, or one that is
  -- picked anew, from 1.
  abbrev pub Counts : ℕ → ℕ → Rotation → Picked × Rotation → Type 0
  Counts more max_requests r (picked id, after) =
      (Named r id
        × (after.rotation_id ≡ r.rotation_id)
        × (after.rotation_count ≡ r.rotation_count + more)
        × (r.rotation_count + more ≤ max_requests))
      ⊎ ((after.rotation_id ≡ id) × (after.rotation_count ≡ 1))
  Counts more max_requests r (no_accounts, after) = after.rotation_count ≡ r.rotation_count
  Counts more max_requests r (none_healthy, after) = after.rotation_count ≡ r.rotation_count

  abbrev pub IsFair : ℕ → ℕ → Rotation → Picked × Rotation → Type 0
  IsFair more max_requests r x = IsHealthy [] x.0 × Counts more max_requests r x

  -- What the rotation adds to the count of an account that stays.
  abbrev pub counted : Bool → ℕ
  counted true = 1
  counted false = 0
