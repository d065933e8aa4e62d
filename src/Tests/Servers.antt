-- ===== src/Tests/Servers.antt =====
-- Runs of the theorems on the API server and on the automatic cleanup.
use m365plus.Base.{
  ℕ, ◌-◌, ◌*◌, max, ◌≡◌, ◌≢◌, refl, String, Bool, true, false, not, ◌&&◌, List, [], ◌∷◌, ◌++◌,
  Option, none, some, string_eq, ==_apart, filterb, length, map, Bytes, bytes_beq, arith,
}
use m365plus.Base.Map.{Map, lookup, insert, delete, lookup-insert, lookup-delete}
use m365plus.Base.Text.{codes, trim_space, strip, space_ahead, space_behind}
use m365plus.Servers.ContextCache.{
  SessionState, FileSystem, ContextCache, new_context_cache, get_session, finish_turn, from_disk,
  session_turn_for, SessionTurn,
}
use m365plus.Servers.ContextCache.Bounds.{
  Request, reads, sets, turns, ends, drops, run_requests, IsBounded, run_requests-IsBounded,
}
use m365plus.Servers.ContextCache.OnDisk.{IsFaithful, Coherent}
use m365plus.Servers.ContextCache.Race.{finish_turn_twice}
use m365plus.Servers.ContextCache.Turns.{session_turn_for-run_requests}
use m365plus.ToolCalling.Ledger.{Ledger}
use m365plus.ToolCalling.Simulated.{no_payload}
use m365plus.Servers.ToolLoop.{Backend, run_tool_loop}
use m365plus.Servers.ToolLoop.Ends.{EndsWithin, run_tool_loop_ends}
use m365plus.Servers.Messages
use m365plus.Servers.Messages.Answered.{
  is_fine, distinct, all_call_ids, all_named, all_answer, all_result_ids,
  validate_tool_result_messages_iff,
}
use m365plus.Servers.Messages.{
  validate_tool_result_messages, Parsed, tool_choice_forces_a_call, drop_settled_tool_calls,
}
use m365plus.Servers.Messages.Settled.{Left, drop_settled_tool_calls-Left}
use mathlib.Core.List.{Perm}
use m365plus.WebAdmin.Conversations.{after_response}
use m365plus.WebAdmin.AutoCleanup.{
  Chat, Candidate, Cloud, Server, is_stale, candidates, round_over, auto_cleanup_once,
}
use m365plus.WebAdmin.AutoCleanup.Spared.{all, is_protected, auto_cleanup_once_spares}
use m365plus.WebAdmin.AutoCleanup.Kept.{none_older, round_over_lem}

-- Files by name, each with a session.
abbrev Disk : Type 0
Disk = Map String SessionState

abbrev disk_files : FileSystem SessionState Disk
disk_files = record { read = lookup; write = insert; remove = delete }

abbrev same_path : String → String
same_path key = key

abbrev whole : SessionState → SessionState
whole st = st

abbrev found : SessionState → Option SessionState
found st = some st

disk_files-IsFaithful : IsFaithful disk_files same_path whole found
disk_files-IsFaithful = record {
  read_write = λ p q f d. lookup-insert q p f d;
  read_remove = λ p q d. lookup-delete q p d;
  decode_encode = λ st. refl;
}

abbrev empty_cache : ContextCache Disk
empty_cache = new_context_cache []

none_apart : (st : SessionState) → none ≢ some st
none_apart st h = ground arith

empty_cache-Coherent : Coherent disk_files same_path whole found "session:s" empty_cache
unfolding lookup
empty_cache-Coherent = λ st h. absurd (none_apart st h)

abbrev requests : List Request
requests =
    reads "a"
    ∷ sets "session:s" "c1"
    ∷ turns "u2" "s"
    ∷ ends "s" "c2" false
    ∷ drops "session:t"
    ∷ []

run_requests-IsBounded_example :
    IsBounded (run_requests disk_files same_path whole found empty_cache requests)
run_requests-IsBounded_example =
    run_requests-IsBounded disk_files same_path whole found empty_cache requests
      ((refl, λ k. unfold lookup in refl), omega arith)

session_turn_for-run_requests_example :
    let (turn, after) = session_turn_for disk_files same_path whole found "u1" "s" empty_cache in
    (t : SessionTurn) × (turn ≡ some t)
    × (t.client_session_id ≢ "")
    × ((session_turn_for disk_files same_path whole found "u3" "s"
          (run_requests disk_files same_path whole found after requests)).0
        ≡ some (record { client_session_id = t.client_session_id; is_start_of_session = false }))
session_turn_for-run_requests_example =
    session_turn_for-run_requests disk_files same_path whole found disk_files-IsFaithful "u1" "u3"
      "s" empty_cache requests (==_apart {A = String} "s" "" refl)
      (==_apart {A = String} "u1" "" refl) empty_cache-Coherent refl
      (λ e. e, (λ e. e, (λ e. e, (λ e. e, tt)))) refl

finish_turn_twice_example :
    let (first, read_once) = get_session disk_files same_path whole found "session:s" empty_cache in
    let (again, read_twice) = get_session disk_files same_path whole found "session:s" read_once in
    let (turn, written) = finish_turn disk_files same_path whole found "u1" "s" first read_twice in
    let (other, last) = finish_turn disk_files same_path whole found "u2" "s" again written in
    (turn ≡ record { client_session_id = "u1"; is_start_of_session = true })
    × (other ≡ record { client_session_id = "u2"; is_start_of_session = true })
unfolding lookup from_disk
finish_turn_twice_example =
    finish_turn_twice disk_files same_path whole found "u1" "u2" "s" empty_cache refl refl

-- A model that always answers with text.
abbrev text_backend : Backend ℕ
text_backend = record {
  chat = λ messages conv_id w. (
    some (record {
      text = codes "hello";
      thinking = [];
      calls = [];
      finish_reason = codes "stop";
      conversation_id = "c";
    }),
    w,
  );
  execute = λ c w. (some (codes "{}"), w);
  continued = λ messages. some messages;
  parse = λ text. no_payload;
  note = λ dropped. codes "retry";
}

abbrev no_canon : Bytes → Option Bytes
no_canon t = none

abbrev never_local : Bytes → Bool
never_local name = false

run_tool_loop_ends_example : EndsWithin text_backend no_canon true never_local 10 (2 * max 1 10) (
    run_tool_loop text_backend no_canon true never_local 10
      (max 1 10)
      0
      []
      []
      ""
      (record { world = 0; executed = []; turns = 0 }))
run_tool_loop_ends_example = run_tool_loop_ends text_backend no_canon true never_local 10 [] "" 0

abbrev empty_ledger : Ledger
empty_ledger = record {
  completed = [];
  pending = [];
  rounds = 0;
  repeated_call = false;
  repeated_failure = false;
  repetition_signature = [];
}

abbrev one_call : Parsed
one_call = record {
  content = [];
  tool_calls = record { id = "1"; name = codes "read"; arguments = codes "{}" } ∷ [];
  finish_reason = codes "tool_calls";
}

drop_settled_tool_calls-Left_example :
    Left no_canon
      (codes "again")
      empty_ledger
      one_call
      (drop_settled_tool_calls no_canon (codes "again") empty_ledger "auto" one_call)
unfolding bytes_beq trim_space strip space_ahead space_behind tool_choice_forces_a_call
drop_settled_tool_calls-Left_example =
    drop_settled_tool_calls-Left no_canon (codes "again") empty_ledger "auto" one_call refl refl

-- A cloud that lists the same chats, of which each can be removed.
abbrev chats : List Chat
chats =
    record { conversation_id = "old"; create_ms = some 0 }
    ∷ record { conversation_id = "new"; create_ms = some 90 }
    ∷ []

abbrev listing_cloud : Cloud ℕ
listing_cloud = record { list = λ c. some chats; remove = λ id c. (true, c) }

abbrev idle_server : Server ℕ
idle_server = record {
  cloud = 0;
  manager = record {
    entries = [];
    mode = after_response;
    keep_n = 5;
    age_limit = 10;
    whitelist = ("new", true) ∷ [];
    dirty = false;
  };
  resolver = record {
    sessions = [];
    by_explicit = [];
    by_user_field = [];
    by_ip_finger = [];
    by_context = [];
    ttl = 10;
    context_ttl = 10;
    max_sessions = 10;
    dirty = false;
  };
  user_sessions = record { entries = []; ttl = 10; dirty = false };
  deleted = [];
}

auto_cleanup_once_spares_example :
    all
      (λ id. not (is_protected 50 100 idle_server id))
      (auto_cleanup_once listing_cloud 50 5 100 idle_server).deleted
    ≡ true
auto_cleanup_once_spares_example = auto_cleanup_once_spares listing_cloud 50 5 100 idle_server refl

abbrev chat_at : String → ℕ → Chat
chat_at id ms = record { conversation_id = id; create_ms = some ms }

abbrev later_chats : List Chat
later_chats = chat_at "b" 80 ∷ chat_at "c" 1 ∷ []

round_over_lem_example :
    let cs = candidates [] (chat_at "a" 90 ∷ later_chats) in
    let young = filterb (λ c. not (is_stale 50 100 c)) cs in
    let after =
      (round_over listing_cloud 50 1 100 [] (some (chat_at "a" 90 ∷ later_chats)) idle_server).1 in
    (kept : List Candidate) × (gone : List Candidate) × Perm (kept ++ gone) young
    × (length gone ≡ length young - 1)
    × (all (λ k. none_older k gone) kept ≡ true)
    × (after.deleted ≡ [] ++ map (λ c. c.id) (filterb (is_stale 50 100) cs ++ gone))
round_over_lem_example =
    round_over_lem listing_cloud (λ id c. refl) 50 1 100 [] (chat_at "a" 90) later_chats idle_server

abbrev tool_messages : List Messages.Message
tool_messages =
    record {
      role = "assistant";
      tool_calls = record { id = "1"; name = codes "read"; arguments = codes "{}" } ∷ [];
      tool_results = [];
      tool_call_id = "";
      tool_progress = false;
    }
    ∷ record {
      role = "tool";
      tool_calls = [];
      tool_results = record { id = "1"; content = codes "ok" } ∷ [];
      tool_call_id = "1";
      tool_progress = false;
    }
    ∷ []

validate_tool_result_messages_iff_example :
    is_fine (validate_tool_result_messages tool_messages) ≡ (
      distinct (all_call_ids tool_messages)
      && (all_named tool_messages
          && (all_answer (all_call_ids tool_messages) (all_result_ids tool_messages)
              && distinct (all_result_ids tool_messages))))
validate_tool_result_messages_iff_example = validate_tool_result_messages_iff tool_messages
