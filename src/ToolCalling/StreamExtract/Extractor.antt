-- ===== src/ToolCalling/StreamExtract/Extractor.antt =====
-- pkg/toolcalling/streamextract.go: `ContentStreamExtractor`. Its final parse is that of
-- ToolCalling/Simulated, without contracts.
use m365plus.Base.{
  ℕ, Bool, true, ◌&&◌, ◌||◌, List, [], ◌++◌, Option, none, some, ltb, leb, ◌==◌, nat_eq, bytes_eq,
  if◌then◌else◌, length, take, drop, Bytes,
}
use m365plus.Base.Text.{has_prefix}
use m365plus.ToolCalling.Json.{Json}
use m365plus.ToolCalling.Contracts.{ToolContracts}
use m365plus.ToolCalling.Simulated.Parse.{parse_simulated_response}
use m365plus.ToolCalling.StreamExtract.Scan.{Candidate, scan_stream_content_candidate, search}

pub record ContentStreamExtractor : Type 0 where
  pub buffer : Bytes
  pub text : Bytes
  pub done : Bool
  pub candidate_locked : Bool
  pub candidate_start : ℕ
  pub candidate_end : ℕ
  pub candidate_complete : Bool

abbrev pub no_contracts : ToolContracts
no_contracts = record { required = []; schemas = []; choice = [] }

-- What is new of a content, and the extractor that has published it.
unfoldable pub publish : Bytes → ContentStreamExtractor → Bytes × ContentStreamExtractor
publish found e =
    if has_prefix found e.text
    then (drop (length e.text) found, record e { text = found })
    else ([], e)

abbrev pub lock : Candidate → ContentStreamExtractor → ContentStreamExtractor
lock c e = record e {
  candidate_locked = true;
  candidate_start = if e.candidate_locked then e.candidate_start else c.start;
  candidate_end = c.end;
  candidate_complete = c.complete;
}

abbrev pub take_candidate :
    Option Candidate → ContentStreamExtractor → Bytes × ContentStreamExtractor
take_candidate none e = ([], e)
take_candidate (some c) e = if c.content_found then publish c.content (lock c e) else ([], lock c e)

module _ (unquote : Bytes → Option Bytes) where
  unfoldable pub current_candidate : ContentStreamExtractor → Option Candidate
  current_candidate e =
      if e.candidate_locked
      then scan_stream_content_candidate unquote e.buffer e.candidate_start
      else search unquote (length e.buffer) e.buffer 0

  unfoldable pub feed : Bytes → ContentStreamExtractor → Bytes × ContentStreamExtractor
  feed chunk e =
      let grown = record e { buffer = e.buffer ++ chunk } in
      if e.done || chunk == [] then ([], e) else take_candidate (current_candidate grown) grown

unfoldable pub parse_text : ContentStreamExtractor → Bytes
parse_text e =
    if e.candidate_locked
      && (e.candidate_complete
          && (ltb e.candidate_start e.candidate_end && leb e.candidate_end (length e.buffer)))
    then drop e.candidate_start (take e.candidate_end e.buffer)
    else e.buffer

module _ (encode : Json → Bytes) (decode : Bytes → Option Json) (mint : ℕ → Bytes) where
  unfoldable pub commit : List Bytes → ContentStreamExtractor → Bytes × ContentStreamExtractor
  commit allowed e =
      let result =
        parse_simulated_response encode decode mint allowed no_contracts true (parse_text e) in
      if e.done then ([], e) else publish result.content (record e { done = true })
