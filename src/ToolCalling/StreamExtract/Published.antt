-- ===== src/ToolCalling/StreamExtract/Published.antt =====
-- pkg/toolcalling/streamextract.go: what `Feed` and `Commit` publish, piece by piece.
use m365plus.Base.{
  ℕ, ◌≡◌, refl, ap, sym, true, false, List, [], ◌∷◌, ◌++◌, append-nil, Option, ==_iff, nat_eq,
  bytes_eq, length, drop, on_both, on_each, Bytes, arith,
}
use m365plus.Base.Text.{has_prefix}
use m365plus.ToolCalling.Json.{Json}
use m365plus.ToolCalling.Simulated.Parse.{parse_simulated_response}
use m365plus.ToolCalling.StreamExtract.Extractor.{
  ContentStreamExtractor, no_contracts, publish, parse_text, feed, commit,
}

has_prefix-drop : (s p : Bytes) → has_prefix s p ≡ true → p ++ drop (length p) s ≡ s
unfolding has_prefix
has_prefix-drop s [] h = refl
has_prefix-drop [] (p ∷ ps) h = ground arith
has_prefix-drop (c ∷ s) (p ∷ ps) h =
    let same : p ≡ c = ground (arith, ==_iff c p) in
    rw same (ap (◌∷◌ c) (has_prefix-drop s ps (ground arith)))

-- What is published is behind the text that was.
abbrev pub Extends : ContentStreamExtractor → Bytes × ContentStreamExtractor → Type 0
Extends e (delta, after) = after.text ≡ e.text ++ delta

publish-Extends : (found : Bytes) (e : ContentStreamExtractor) → Extends e (publish found e)
unfolding publish
publish-Extends found e =
    on_each (Extends e) (has_prefix found e.text) (λ h. sym (has_prefix-drop found e.text h))
      (λ apart. sym (append-nil e.text))

-- What is published completes a text to the content that the text begins, and is nothing where it
-- does not begin it.
abbrev pub Completes : Bytes → Bytes → Bytes × ContentStreamExtractor → Type 0
Completes content text (delta, after) =
    (has_prefix content text ≡ true → text ++ delta ≡ content)
    × (has_prefix content text ≡ false → delta ≡ [])

module _ (unquote : Bytes → Option Bytes) (encode : Json → Bytes) (decode : Bytes → Option Json)
    (mint : ℕ → Bytes) where
  commit-Extends :
      (allowed : List Bytes) (e : ContentStreamExtractor)
      → Extends e (commit encode decode mint allowed e)
  unfolding commit
  commit-Extends allowed e =
      on_both (Extends e) e.done (sym (append-nil e.text))
        (publish-Extends _ (record e { done = true }))

  -- The chunks of an answer, one after the other, and what is published of them.
  abbrev pub feed_all : List Bytes → ContentStreamExtractor → Bytes × ContentStreamExtractor
  feed_all [] e = ([], e)
  feed_all (chunk ∷ chunks) e =
      let (delta, after) = feed unquote chunk e in
      let (more, last) = feed_all chunks after in (delta ++ more, last)

  -- The content of the whole answer, as its final parse reads it.
  abbrev pub parsed_content : List Bytes → ContentStreamExtractor → Bytes
  parsed_content allowed e =
      (parse_simulated_response encode decode mint allowed no_contracts true (parse_text e)).content
