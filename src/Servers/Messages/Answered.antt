-- ===== src/Servers/Messages/Answered.antt =====
-- pkg/servers/api.go: which messages `validateToolResultMessages` accepts.
use m365plus.Base.{
  ◌≡◌, refl, ◌∙◌, inl, inr, String, Bool, true, false, not, ◌||◌, ◌&&◌, List, [], ◌∷◌, ◌++◌, Option,
  none, some, ◌==◌, ==_iff, ==_refl, string_eq, if◌then◌else◌, Bool-cases, arith,
}
use m365plus.Servers.Messages.{
  ToolCall, ToolResult, Message, ResultError, has_id, declare_calls, if_no_error, declare_all,
  is_nothing, answer_results, answer_all, validate_tool_result_messages,
}

-- The ids of the calls that have one, and of the results.
abbrev pub call_ids : List ToolCall → List String
call_ids [] = []
call_ids (c ∷ cs) = let rest = call_ids cs in if c.id == "" then rest else c.id ∷ rest

abbrev pub result_ids : List ToolResult → List String
result_ids [] = []
result_ids (r ∷ rs) = r.id ∷ result_ids rs

abbrev pub all_call_ids : List Message → List String
all_call_ids [] = []
all_call_ids (m ∷ ms) = call_ids m.tool_calls ++ all_call_ids ms

abbrev pub all_result_ids : List Message → List String
all_result_ids [] = []
all_result_ids (m ∷ ms) = result_ids m.tool_results ++ all_result_ids ms

abbrev pub distinct : List String → Bool
distinct [] = true
distinct (i ∷ is) = not (has_id i is) && distinct is

-- Whether no id of the first list stands in the second.
abbrev clear : List String → List String → Bool
clear [] known = true
clear (i ∷ is) known = not (has_id i known) && clear is known

abbrev pub is_fine : Option ResultError → Bool
is_fine none = true
is_fine (some _) = false

-- Whether the results each name a call, of those that are known if there are any.
abbrev pub all_answer : List String → List String → Bool
all_answer known [] = true
all_answer known (i ∷ is) =
    not (i == "") && ((is_nothing known || has_id i known) && all_answer known is)

-- Whether each message of the tool names its call.
abbrev pub all_named : List Message → Bool
all_named [] = true
all_named (m ∷ ms) = not (m.role == "tool" && m.tool_call_id == "") && all_named ms

has_id-append :
    (x : String) (is js : List String) → has_id x (is ++ js) ≡ (has_id x is || has_id x js)
unfolding has_id
has_id-append x [] js = refl
has_id-append x (i ∷ is) js = ground (arith, has_id-append x is js)

all_answer-append :
    (known is js : List String)
    → all_answer known (is ++ js) ≡ (all_answer known is && all_answer known js)
all_answer-append known [] js = refl
all_answer-append known (i ∷ is) js = ground (arith, all_answer-append known is js)

clear-cons :
    (is : List String) (j : String) (known : List String)
    → clear is (j ∷ known) ≡ (not (has_id j is) && clear is known)
unfolding has_id
clear-cons [] j known = refl
clear-cons (i ∷ is) j known = ground (arith, clear-cons is j known, ==_iff i j, ==_iff j i)

clear-append :
    (is js known : List String) → clear (is ++ js) known ≡ (clear is known && clear js known)
clear-append [] js known = refl
clear-append (i ∷ is) js known = ground (arith, clear-append is js known)

clear_either :
    (is a b out : List String)
    → ((x : String) → has_id x out ≡ (has_id x a || has_id x b))
    → clear is out ≡ (clear is a && clear is b)
clear_either [] a b out h = refl
clear_either (i ∷ is) a b out h = ground (arith, clear_either is a b out h, h i)

clear_nothing : (js : List String) → clear js [] ≡ true
unfolding has_id
clear_nothing [] = refl
clear_nothing (j ∷ js) = clear_nothing js

distinct-append :
    (is js : List String) → distinct (is ++ js) ≡ (distinct is && (distinct js && clear js is))
distinct-append [] js = ground (arith, clear_nothing js)
distinct-append (i ∷ is) js =
    ground (arith, distinct-append is js, has_id-append i is js, clear-cons js i is)

-- A loop that collects ids: it goes through exactly if a condition holds and the ids are new and
-- different, and then it has added them.
abbrev Collected : Bool → List String → List String → Option ResultError × List String → Type 0
Collected c ids acc r =
    (is_fine r.0 ≡ (c && (distinct ids && clear ids acc)))
    × (is_fine r.0 ≡ true → (x : String) → has_id x r.1 ≡ (has_id x ids || has_id x acc))

Collected-both :
    (c d : Bool) (is js acc : List String) (r : Option ResultError × List String)
    (go : List String → Option ResultError × List String)
    → Collected c is acc r
    → ((out : List String) → Collected d js out (go out))
    → Collected (c && d) (is ++ js) acc (if_no_error r go)
Collected-both c d is js acc (some e, out) go (h, k) next =
    (ground (arith, h, distinct-append is js, clear-append is js acc), λ bad. absurd (ground arith))
Collected-both c d is js acc (none, out) go (h, k) next =
    let (first, second) = next out in
    let all_in = k refl in
    (
      ground (
        arith,
        h,
        first,
        distinct-append is js,
        clear-append is js acc,
        clear_either js is acc out all_in,
      ),
      λ fine x. second fine x ∙ ground (arith, all_in x, has_id-append x is js),
    )

declare_calls-Collected :
    (cs : List ToolCall) (known : List String)
    → Collected true (call_ids cs) known (declare_calls cs known)
unfolding declare_calls has_id
declare_calls-Collected [] known = (refl, λ fine x. refl)
declare_calls-Collected (c ∷ cs) known = elim (Bool-cases (c.id == "")) [
  | inl e ↦ rw e (declare_calls-Collected cs known)
  | inr e ↦ elim (Bool-cases (has_id c.id known)) [
    | inl h ↦ rw (e, h) (ground (arith, h), λ bad. absurd (ground arith))
    | inr h ↦
        let (fine_iff, members) = declare_calls-Collected cs (c.id ∷ known) in
        rw (e, h)
          (
            ground (arith, fine_iff, clear-cons (call_ids cs) c.id known, h),
            λ fine x. members fine x ∙ ground arith,
          )
  ]
]

declare_all-Collected :
    (ms : List Message) (known : List String)
    → Collected true (all_call_ids ms) known (declare_all ms known)
unfolding declare_all has_id
declare_all-Collected [] known = (refl, λ fine x. refl)
declare_all-Collected (m ∷ ms) known =
    Collected-both true true (call_ids m.tool_calls) (all_call_ids ms) known
      (declare_calls m.tool_calls known) (declare_all ms)
      (declare_calls-Collected m.tool_calls known) (declare_all-Collected ms)

answer_results-Collected :
    (known : List String) (rs : List ToolResult) (answered : List String)
    → Collected
        (all_answer known (result_ids rs))
        (result_ids rs)
        answered
        (answer_results known rs answered)
unfolding answer_results has_id
answer_results-Collected known [] answered = (refl, λ fine x. refl)
answer_results-Collected known (r ∷ rs) answered = elim (Bool-cases (r.id == "")) [
  | inl e ↦ rw e (refl, λ bad. absurd (ground arith))
  | inr e ↦ elim (Bool-cases (is_nothing known || has_id r.id known)) [
    | inr u ↦
        let stray : (not (is_nothing known) && not (has_id r.id known)) ≡ true =
          ground (arith, u) in
        rw (e, stray, u) (refl, λ bad. absurd (ground arith))
    | inl k ↦
        let meant : (not (is_nothing known) && not (has_id r.id known)) ≡ false =
          ground (arith, k) in
        let (fine_iff, members) = answer_results-Collected known rs (r.id ∷ answered) in
        elim (Bool-cases (has_id r.id answered)) [
          | inl h ↦ rw (e, meant, k, h) (ground (arith, h), λ bad. absurd (ground arith))
          | inr h ↦
              rw (e, meant, k, h)
                (
                  ground (arith, fine_iff, clear-cons (result_ids rs) r.id answered, h),
                  λ fine x. members fine x ∙ ground arith,
                )
        ]
  ]
]

answer_all-Collected :
    (known : List String) (ms : List Message) (answered : List String)
    → Collected
        (all_named ms && all_answer known (all_result_ids ms))
        (all_result_ids ms)
        answered
        (answer_all known ms answered)
unfolding answer_all has_id
answer_all-Collected known [] answered = (refl, λ fine x. refl)
answer_all-Collected known (m ∷ ms) answered =
    let both =
      Collected-both (all_answer known (result_ids m.tool_results))
        (all_named ms && all_answer known (all_result_ids ms)) (result_ids m.tool_results)
        (all_result_ids ms) answered (answer_results known m.tool_results answered)
        (answer_all known ms) (answer_results-Collected known m.tool_results answered)
        (answer_all-Collected known ms) in
    elim (Bool-cases (m.role == "tool" && m.tool_call_id == "")) [
      | inl e ↦ rw e (refl, λ bad. absurd (ground arith))
      | inr e ↦ rw e (
        ground (
          arith,
          both.0,
          all_answer-append known (result_ids m.tool_results) (all_result_ids ms),
        ),
        both.1,
      )
    ]

is_nothing-same :
    (is js : List String)
    → ((x : String) → has_id x is ≡ has_id x js)
    → is_nothing is ≡ is_nothing js
unfolding has_id
is_nothing-same [] [] h = refl
is_nothing-same [] (j ∷ js) h = ground (arith, h j, ==_refl j)
is_nothing-same (i ∷ is) [] h = ground (arith, h i, ==_refl i)
is_nothing-same (i ∷ is) (j ∷ js) h = refl

all_answer-same :
    (is js ids : List String)
    → ((x : String) → has_id x is ≡ has_id x js)
    → all_answer is ids ≡ all_answer js ids
all_answer-same is js [] h = refl
all_answer-same is js (i ∷ ids) h =
    ground (arith, all_answer-same is js ids h, h i, is_nothing-same is js h)

answered_after :
    (ms : List Message) (r : Option ResultError × List String)
    → Collected true (all_call_ids ms) [] r
    → is_fine (if_no_error r (λ known. answer_all known ms [])).0 ≡ (
        distinct (all_call_ids ms)
        && (all_named ms
            && (all_answer (all_call_ids ms) (all_result_ids ms) && distinct (all_result_ids ms))))
unfolding has_id
answered_after ms (some e, out) (h, k) = ground (arith, h, clear_nothing (all_call_ids ms))
answered_after ms (none, out) (h, k) =
    let same : (x : String) → has_id x out ≡ has_id x (all_call_ids ms) =
      λ x. k refl x ∙ ground arith in
    ground (
      arith,
      h,
      clear_nothing (all_call_ids ms),
      clear_nothing (all_result_ids ms),
      (answer_all-Collected out ms []).0,
      all_answer-same out (all_call_ids ms) (all_result_ids ms) same,
    )

-- A request's messages are accepted exactly if no two calls have one id, no two results answer one
-- call, each result names a call of the request if that has any with an id, and each message of the
-- tool names its call.
pub validate_tool_result_messages_iff :
    (ms : List Message)
    → is_fine (validate_tool_result_messages ms) ≡ (
        distinct (all_call_ids ms)
        && (all_named ms
            && (all_answer (all_call_ids ms) (all_result_ids ms) && distinct (all_result_ids ms))))
unfolding validate_tool_result_messages
validate_tool_result_messages_iff ms =
    answered_after ms (declare_all ms []) (declare_all-Collected ms [])
