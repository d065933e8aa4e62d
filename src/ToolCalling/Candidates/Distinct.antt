-- ===== src/ToolCalling/Candidates/Distinct.antt =====
-- pkg/toolcalling/simulated.go: what `enumerateJSONCandidates` yields.
use m365plus.Base.{
  ◌≡◌, refl, Bool, true, false, not, ◌&&◌, ◌||◌, List, [], ◌∷◌, ◌++◌, ◌==◌, ==_iff, nat_eq,
  bytes_eq, on_each, on_both, length, Bytes, arith,
}
use m365plus.Base.Text.{trim_space}
use m365plus.ToolCalling.Candidates.{
  extract_balanced_json_segments, fence_bodies, is_seen, add, add_all, enumerate_json_candidates,
}

-- No text stands twice, and none is empty.
abbrev pub all_distinct : List Bytes → Bool
all_distinct [] = true
all_distinct (s ∷ ss) = not (s == []) && (not (is_seen s ss) && all_distinct ss)

is_seen-append :
    (n s : Bytes) (ss : List Bytes) → is_seen n (ss ++ s ∷ []) ≡ (is_seen n ss || s == n)
unfolding is_seen
is_seen-append n s [] = ground arith
is_seen-append n s (t ∷ ts) = ground (arith, is_seen-append n s ts)

all_distinct-append :
    (s : Bytes) (ss : List Bytes)
    → (s == []) ≡ false
    → is_seen s ss ≡ false
    → all_distinct ss ≡ true
    → all_distinct (ss ++ s ∷ []) ≡ true
unfolding is_seen
all_distinct-append s [] h n d = ground arith
all_distinct-append s (t ∷ ts) h n d =
    ground (arith, all_distinct-append s ts h, is_seen-append t s ts, ==_iff t s, ==_iff s t)

all_distinct-add :
    (out : List Bytes) (s : Bytes) → all_distinct out ≡ true → all_distinct (add out s) ≡ true
unfolding add
all_distinct-add out s d =
    on_each (λ (x : List Bytes). all_distinct x ≡ true) (trim_space s == []) (λ blank. d)
      (λ h.
        on_each (λ (x : List Bytes). all_distinct x ≡ true) (is_seen (trim_space s) out) (λ seen. d)
          (λ n. all_distinct-append (trim_space s) out h n d))

all_distinct-add_all :
    (out ss : List Bytes) → all_distinct out ≡ true → all_distinct (add_all out ss) ≡ true
unfolding add_all
all_distinct-add_all out [] d = d
all_distinct-add_all out (s ∷ ss) d = all_distinct-add_all (add out s) ss (all_distinct-add out s d)

-- No candidate is tried twice, and none is empty.
pub enumerate_json_candidates-all_distinct :
    (raw : Bytes) → all_distinct (enumerate_json_candidates raw) ≡ true
unfolding enumerate_json_candidates add
enumerate_json_candidates-all_distinct raw =
    on_both (λ (x : List Bytes). all_distinct x ≡ true) (trim_space raw == []) refl
      (all_distinct-add_all (add_all (add [] (trim_space raw)) (fence_bodies (length raw) raw))
        (extract_balanced_json_segments raw)
        (all_distinct-add_all (add [] (trim_space raw)) (fence_bodies (length raw) raw)
          (all_distinct-add [] (trim_space raw) refl)))
