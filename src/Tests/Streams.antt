-- ===== src/Tests/Streams.antt =====
-- Runs of the theorems on the SignalR frames and on the tool-calling text.
use m365plus.Base.{
  ◌≡◌, refl, Bool, false, not, List, [], ◌∷◌, map, Option, none, some, arith, leb, filterb, Bytes,
}
use m365plus.Base.Text.{
  codes, lower_byte, trim_space, trim_right_newlines, strip, space_ahead, space_behind,
}
use m365plus.Client.Frames.{feed, drain, close_record, feed_all, join, feed_all-feed}
use m365plus.ToolCalling.Thinking
use m365plus.ToolCalling.Thinking.Stream
use m365plus.ToolCalling.Ledger.{
  LedgerCall, LedgerResult, results_by_id, pending_evidence, filter_repeated, build_ledger,
}
use m365plus.ToolCalling.Ledger.Build.{
  answered, unanswered, has_repeat, evidence_of, signature_of, failure_keys, build_ledger_lem,
}
use m365plus.ToolCalling.Ledger.Repeats.{times_answered, filter_repeated-build_ledger}

abbrev whole : Bytes → Option Bytes
whole b = some b

abbrev cuts : List Bytes
cuts = (65 ∷ []) ∷ (66 ∷ 0x1e ∷ 67 ∷ []) ∷ (0x1e ∷ 68 ∷ []) ∷ []

feed_all-feed_example : feed_all whole [] cuts ≡ feed whole [] (join cuts)
unfolding feed drain close_record trim_space strip space_ahead space_behind
feed_all-feed_example = feed_all-feed whole cuts [] refl (omega arith) tt

abbrev texts : List Bytes
texts = codes "one\nchat" ∷ codes "hub\n```\nx" ∷ codes "\n```\ntwo" ∷ []

streamed-batch_example :
    trim_right_newlines (Stream.streamed texts)
    ≡ Thinking.filter_transport_thinking (Stream.join texts)
streamed-batch_example = Stream.streamed-batch texts

abbrev lines : List Bytes
lines = codes "one" ∷ codes "```" ∷ codes "x" ∷ codes "```" ∷ codes "two" ∷ []

abbrev not_json : Bytes → Option Bytes
not_json b = none

abbrev never : Bytes → Bool
never b = false

abbrev search_call : LedgerCall
search_call = record { id = "1"; name = codes "search"; arguments = codes "x" }

abbrev search_again : LedgerCall
search_again = record { id = "2"; name = codes "search"; arguments = codes "x" }

abbrev read_call : LedgerCall
read_call = record { id = "3"; name = codes "read"; arguments = codes "y" }

abbrev history : List LedgerCall
history = search_call ∷ search_again ∷ read_call ∷ []

abbrev replies : List LedgerResult
replies =
    record { id = "1"; content = codes "none" } ∷ record { id = "2"; content = codes "none" } ∷ []

-- `strings.ToLower` on ASCII.
abbrev ascii_lower : Bytes → Bytes
ascii_lower = map lower_byte

build_ledger_lem_example :
    let m = results_by_id replies [] in
    let l = build_ledger not_json never ascii_lower history replies 2 in
    (l.completed ≡ map (evidence_of not_json never ascii_lower) (answered m history))
    × (l.pending ≡ map pending_evidence (unanswered m history))
    × (l.repeated_call
        ≡ has_repeat
            (λ _. false)
            (map (signature_of not_json never ascii_lower) (answered m history)))
    × (l.repeated_failure
        ≡ has_repeat (λ _. false) (failure_keys not_json never ascii_lower (answered m history)))
build_ledger_lem_example = build_ledger_lem not_json never ascii_lower history replies 2

filter_repeated-build_ledger_example :
    let done = answered (results_by_id replies []) history in
    filter_repeated not_json (build_ledger not_json never ascii_lower history replies 2) history ≡ (
      filterb (λ c. not (leb 2 (times_answered not_json never ascii_lower c done))) history,
      filterb (λ c. leb 2 (times_answered not_json never ascii_lower c done)) history,
    )
filter_repeated-build_ledger_example =
    filter_repeated-build_ledger not_json never ascii_lower history history replies 2
