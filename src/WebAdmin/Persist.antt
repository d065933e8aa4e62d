-- ===== src/WebAdmin/Persist.antt =====
-- pkg/webadmin/persist.go: delayed persistence of one store. Its locks make these steps atomic: a
-- change of the data by the store, `markDirty`, the test and reset of the flag that opens a flush,
-- the snapshot under the store's lock, and the end of the write. `writeMu` lets one flush write at
-- a time; the others wait, with the flag already reset. A store changes its data under a lock of
-- its own, before the call of `markDirty` or of `flushNowBlocking` that tells of the change;
-- keys.go also takes a change back with no such call.
use m365plus.Base.{
  ℕ, suc, ◌+◌, ◌-◌, ◌≡◌, refl, Bool, true, false, Option, none, some, arith, if◌then◌else◌,
}

pub record PersistStore (D : Type 0) : Type 0 where
  pub dirty : Bool
  pub waiting : ℕ
  pub writing : Option D
  pub memory : D
  pub disk : D
  -- Whether the data have changed since the last call that tells of it; the code has no such field.
  pub untold : Bool

module _ {D : Type 0} where
  -- A change of the data, by the store that owns them.
  unfoldable pub change : D → PersistStore D → PersistStore D
  change d p = record p { memory = d; untold = true }

  unfoldable pub mark_dirty : PersistStore D → PersistStore D
  mark_dirty p = record p { dirty = true; untold = false }

  -- The first half of `flushPending`: nothing, or the flag is reset and the flush waits.
  unfoldable pub flush_pending : PersistStore D → PersistStore D
  flush_pending p = if p.dirty then record p { dirty = false; waiting = p.waiting + 1 } else p

  -- The first half of `flushNowBlocking`.
  unfoldable pub flush_now_blocking : PersistStore D → PersistStore D
  flush_now_blocking p = record p { dirty = false; waiting = p.waiting + 1; untold = false }

  -- A waiting flush gets `writeMu` and takes its snapshot.
  unfoldable pub take_snapshot : PersistStore D → PersistStore D
  take_snapshot p = record p { waiting = p.waiting - 1; writing = some p.memory }

  -- The end of a flush that has written, or that has failed.
  unfoldable pub end_flush : Bool → D → PersistStore D → PersistStore D
  end_flush true snapshot p = record p { writing = none; disk = snapshot }
  end_flush false snapshot p = record p { writing = none; dirty = true }

  -- What may happen next, by any goroutine.
  pub data Step : PersistStore D → PersistStore D → Type 0 where
    changes : {p : PersistStore D} (d : D) → Step p (change d p)
    marks : {p : PersistStore D} → Step p (mark_dirty p)
    pending : {p : PersistStore D} → Step p (flush_pending p)
    now : {p : PersistStore D} → Step p (flush_now_blocking p)
    snapshots :
        {p : PersistStore D} (k : ℕ)
        → p.waiting ≡ suc k
        → p.writing ≡ none
        → Step p (take_snapshot p)
    ends :
        {p : PersistStore D} (snapshot : D) (written : Bool)
        → p.writing ≡ some snapshot
        → Step p (end_flush written snapshot p)

  pub data Reach (p : PersistStore D) : PersistStore D → Type 0 where
    here : Reach p p
    next : {q r : PersistStore D} → Reach p q → Step q r → Reach p r

  -- The copy that is, or will be, on disk when no more flush is under way.
  abbrev pub last_copy : PersistStore D → Option D → D
  last_copy p none = p.disk
  last_copy p (some snapshot) = snapshot

  -- With a clean flag, no flush waiting and every change told of, the last copy is the data in
  -- memory.
  abbrev pub IsTracked : PersistStore D → Type 0
  IsTracked p =
      p.dirty ≡ false → p.waiting ≡ 0 → p.untold ≡ false → last_copy p p.writing ≡ p.memory

  Step-IsTracked : {p q : PersistStore D} → Step p q → IsTracked p → IsTracked q
  unfolding change mark_dirty flush_pending flush_now_blocking take_snapshot end_flush
  Step-IsTracked (changes d) t clean idle told = ground arith
  Step-IsTracked marks t clean idle told = ground arith
  Step-IsTracked {p} pending t clean idle told = ground arith
  Step-IsTracked now t clean idle told = absurd (omega arith)
  Step-IsTracked (snapshots k w e) t clean idle told = refl
  Step-IsTracked (ends snapshot true e) t clean idle told = ground (arith, t clean idle told)
  Step-IsTracked (ends snapshot false e) t clean idle told = ground arith

  Reach-IsTracked : {p q : PersistStore D} → IsTracked p → Reach p q → IsTracked q
  Reach-IsTracked t here = t
  Reach-IsTracked t (next r s) = Step-IsTracked s (Reach-IsTracked t r)

  -- No update that is told of is lost: from a store whose disk is up to date, whatever the
  -- interleaving of changes, calls of `markDirty` and flushes, failed ones included, if the flag is
  -- clean, no flush is waiting or writing, and after the last change there was a call of `markDirty`
  -- or of `flushNowBlocking`, the disk holds the data in memory.
  pub disk-memory :
      (p q : PersistStore D)
      → p.writing ≡ none
      → p.disk ≡ p.memory
      → Reach p q
      → q.dirty ≡ false
      → q.waiting ≡ 0
      → q.untold ≡ false
      → q.writing ≡ none
      → q.disk ≡ q.memory
  disk-memory p q idle same r clean none_waits told none_writes =
      let t = Reach-IsTracked {p = p} (λ _ _ _. ground arith) r in
      ground (arith, t clean none_waits told)

  -- The disk holds these data and the memory those, and nothing is to be flushed.
  abbrev pub Rests : D → D → PersistStore D → Type 0
  Rests on_disk in_memory q =
      (q.disk ≡ on_disk)
      × (q.memory ≡ in_memory)
      × (q.dirty ≡ false)
      × (q.waiting ≡ 0)
      × (q.writing ≡ none)
