-- ===== src/Servers/ContextCache/OnDisk.antt =====
-- pkg/servers/api.go: `ContextCache` against the file of one key.
use m365plus.Base.{
  ◌≡◌, refl, ap, sym, ◌∙◌, subst, String, Bool, true, not, List, [], ◌∷◌, ◌++◌, Option, none, some,
  ◌==◌, ==_iff, string_eq, nat_eq, if◌then◌else◌, arith,
}
use m365plus.Base.Map.{Map, lookup, insert, delete, lookup-insert, lookup-delete}
use m365plus.Servers.ContextCache.{
  SessionState, no_session, FileSystem, ContextCache, without, evict, put_last, keep_conversation,
  from_disk, answer_of, look_up, get_session, set_session, delete_session,
}

abbrev pub or_no_session : Option SessionState → SessionState
or_no_session none = no_session
or_no_session (some st) = st

-- Eviction adds nothing.
lookup-evict :
    (k : String) (mem : Map String SessionState) (order : List String) (st : SessionState)
    → lookup k (evict mem order).0 ≡ some st
    → lookup k mem ≡ some st
unfolding evict
lookup-evict k mem [] st h = h
lookup-evict k mem (old ∷ order) st h =
    ground (arith, lookup-evict k (delete old mem) order st, lookup-delete old k mem)

module _ {ℓ} {D : Type ℓ} {F : Type 0} (files : FileSystem F D) (path : String → String)
    (encode : SessionState → F) (decode : F → Option SessionState) where
  -- A disk on which writes and removals succeed: a file that was written is read until it is
  -- written again or removed. What `json.Marshal` gives is decoded.
  pub record IsFaithful : Type ℓ where
    pub read_write :
        (p q : String) (f : F) (d : D)
        → files.read p (files.write q f d) ≡ (if q == p then some f else files.read p d)
    pub read_remove :
        (p q : String) (d : D)
        → files.read p (files.remove q d) ≡ (if q == p then none else files.read p d)
    pub decode_encode : (st : SessionState) → decode (encode st) ≡ some st

  -- The key does not share the file of another; the name of a file is an MD5 sum.
  abbrev pub Apart : String → String → Type 0
  Apart key k = path key ≡ path k → key ≡ k

  -- What is in memory under the key, if anything, is what its file holds.
  abbrev pub Coherent : String → ContextCache D → Type 0
  Coherent k cc =
      (st : SessionState)
      → lookup k cc.mem ≡ some st
      → from_disk files path encode decode k cc.disk ≡ some st

  from_disk-write :
      (law : IsFaithful) (k key : String) (st : SessionState) (d : D)
      → Apart key k
      → from_disk files path encode decode k (files.write (path key) (encode st) d)
        ≡ (if key == k then some st else from_disk files path encode decode k d)
  unfolding from_disk
  from_disk-write law k key st d apart = ground (
    arith,
    law.read_write (path k) (path key) (encode st) d,
    ==_iff (path key) (path k),
    ==_iff key k,
    apart,
    ap path {x = key} {y = k},
    law.decode_encode st,
  )

  pub from_disk-remove :
      (law : IsFaithful) (k key : String) (d : D)
      → Apart key k
      → from_disk files path encode decode k (files.remove (path key) d)
        ≡ (if key == k then none else from_disk files path encode decode k d)
  unfolding from_disk
  from_disk-remove law k key d apart = ground (
    arith,
    law.read_remove (path k) (path key) d,
    ==_iff (path key) (path k),
    ==_iff key k,
    apart,
    ap path {x = key} {y = k},
  )

  lookup-put_last :
      (k key : String) (st s : SessionState) (order : List String) (cc : ContextCache D)
      → lookup k (put_last key st order cc).mem ≡ some s
      → (if key == k then some st else lookup k cc.mem) ≡ some s
  unfolding put_last
  lookup-put_last k key st s order cc h =
      sym (lookup-insert key k st cc.mem)
      ∙ lookup-evict k (insert key st cc.mem) (order ++ key ∷ []) s h

  put_last_disk :
      (key : String) (st : SessionState) (order : List String) (cc : ContextCache D)
      → (put_last key st order cc).disk ≡ cc.disk
  unfolding put_last
  put_last_disk key st order cc = refl

  put_last_enabled :
      (key : String) (st : SessionState) (order : List String) (cc : ContextCache D)
      → (put_last key st order cc).enabled ≡ cc.enabled
  unfolding put_last
  put_last_enabled key st order cc = refl

  put_last-Coherent :
      (k key : String) (st : SessionState) (order : List String) (cc : ContextCache D)
      → Coherent k cc
      → from_disk files path encode decode key cc.disk ≡ some st
      → Coherent k (put_last key st order cc)
  unfolding put_last
  put_last-Coherent k key st order cc co e s h =
      ground (arith, lookup-put_last k key st s order cc h, co s, ==_iff key k, e)

  -- What a read of a key leaves, and what it answers for `k`.
  abbrev pub Reads : String → String → ContextCache D → SessionState × ContextCache D → Type ℓ
  Reads k key cc (st, after) =
      ((key ≡ k) → st ≡ or_no_session (from_disk files path encode decode k cc.disk))
      × Coherent k after
      × (after.disk ≡ cc.disk)
      × (after.enabled ≡ cc.enabled)

  answer_of-Reads :
      (k key : String) (o : Option SessionState) (cc : ContextCache D)
      → from_disk files path encode decode key cc.disk ≡ o
      → Coherent k cc
      → Reads k key cc (answer_of files path encode decode key o cc)
  answer_of-Reads k key none cc e co = (λ same. rw (← same) (rw e refl), co, refl, refl)
  answer_of-Reads k key (some st) cc e co = (
    λ same. rw (← same) (rw e refl),
    put_last-Coherent k key st cc.order cc co e,
    put_last_disk key st cc.order cc,
    put_last_enabled key st cc.order cc,
  )

  look_up-Reads :
      (k key : String) (o : Option SessionState) (cc : ContextCache D)
      → lookup key cc.mem ≡ o
      → Coherent k cc
      → Reads k key cc (look_up files path encode decode key o cc)
  look_up-Reads k key none cc e co =
      answer_of-Reads k key (from_disk files path encode decode key cc.disk) cc refl co
  look_up-Reads k key (some st) cc e co = (
    λ same. rw (co st (subst (λ (j : String). lookup j cc.mem ≡ some st) same e)) refl,
    co,
    refl,
    refl,
  )

  -- While the cache is enabled, a read of the key answers what its file holds, evicted or not, and
  -- every read keeps the disk and what is known of the key.
  pub get_session-Reads :
      (k key : String) (cc : ContextCache D)
      → Coherent k cc
      → cc.enabled ≡ true
      → Reads k key cc (get_session files path encode decode key cc)
  unfolding get_session
  get_session-Reads k key cc co on =
      subst
        (λ (b : Bool). Reads k key cc (
          if not b
          then (no_session, cc)
          else look_up files path encode decode key (lookup key cc.mem) cc))
        (sym on) (look_up-Reads k key (lookup key cc.mem) cc refl co)

  -- What a write of a key leaves of `k`.
  abbrev pub Writes : String → String → SessionState → ContextCache D → ContextCache D → Type 0
  Writes k key st cc after =
      Coherent k after
      × (from_disk files path encode decode k after.disk
          ≡ (if key == k then some st else from_disk files path encode decode k cc.disk))
      × (after.enabled ≡ true)

  pub set_session-Writes :
      (law : IsFaithful) (k key : String) (given : SessionState) (cc : ContextCache D)
      → Apart key k
      → Coherent k cc
      → cc.enabled ≡ true
      → Writes k key
          (keep_conversation (lookup key cc.mem) given)
          cc
          (set_session files path encode decode key given cc)
  unfolding set_session
  set_session-Writes law k key given cc apart co on =
      let st = keep_conversation (lookup key cc.mem) given in
      let order = without key cc.order in
      let placed = put_last key st order cc in
      let after : ContextCache D = record placed {
        disk = files.write (path key) (encode st) placed.disk;
      } in
      let written : from_disk files path encode decode k
            (files.write (path key) (encode st) placed.disk)
          ≡ (if key == k then some st else from_disk files path encode decode k cc.disk) =
        rw (put_last_disk key st order cc) (from_disk-write law k key st cc.disk apart) in
      subst (λ (b : Bool). Writes k key st cc (if not b then cc else after)) (sym on)
        (
          (λ s h.
              ground (arith, lookup-put_last k key st s order cc h, co s, ==_iff key k, written)),
          written,
          put_last_enabled key st order cc ∙ on,
        )

  pub delete_session-Coherent :
      (law : IsFaithful) (k key : String) (cc : ContextCache D)
      → Apart key k
      → Coherent k cc
      → Coherent k (delete_session files path encode decode key cc)
  unfolding delete_session
  delete_session-Coherent law k key cc apart co s h =
      ground (arith, lookup-delete key k cc.mem, co s, from_disk-remove law k key cc.disk apart)
