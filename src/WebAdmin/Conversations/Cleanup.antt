-- ===== src/WebAdmin/Conversations/Cleanup.antt =====
-- pkg/webadmin/conversation_manager.go: what `Cleanup` spares and what it deletes.
use m365plus.Base.{
  ℕ, ◌+◌, String, Bool, true, false, not, ◌&&◌, List, [], ◌∷◌, Option, none, some, ◌==◌, ==_iff,
  string_eq, if◌then◌else◌, ltb, length, ◌≡◌, refl, ◌∙◌, arith, Bool-cases, inl, inr,
}
use m365plus.Base.Map.{Map, lookup, delete, lookup-delete, DistinctKeys}
use m365plus.WebAdmin.Conversations.{
  Mode, after_response, on_exit, keep_latest, max_age, unknown, ManagedConversation, Manager,
  is_whitelisted, select, chosen, delete_all, cleanup,
}

unfoldable pub contains_id : String → List String → Bool
contains_id id [] = false
contains_id id (j ∷ js) = if j == id then true else contains_id id js

lookup-delete_all :
    (id : String) (ids : List String) (entries : Map String ManagedConversation)
    → lookup id (delete_all ids entries) ≡ (if contains_id id ids then none else lookup id entries)
unfolding delete_all contains_id
lookup-delete_all id [] entries = refl
lookup-delete_all id (j ∷ js) entries =
    ground (arith, lookup-delete_all id js (delete j entries), lookup-delete j id entries)

select_spared :
    (m : Manager) (test : ManagedConversation → Bool) (id : String)
    (entries : Map String ManagedConversation)
    → is_whitelisted m id ≡ true
    → contains_id id (select m test entries) ≡ false
unfolding select contains_id
select_spared m test id [] h = refl
select_spared m test id ((j, c) ∷ rest) h =
    ground (arith, ==_iff j id, select_spared m test id rest h)

chosen_spared :
    (k : Mode) (now : ℕ) (m : Manager) (id : String)
    → is_whitelisted m id ≡ true
    → contains_id id (chosen k now m) ≡ false
unfolding chosen
chosen_spared after_response now m id h = select_spared m _ id m.entries h
chosen_spared max_age now m id h = select_spared m _ id m.entries h
chosen_spared keep_latest now m id h = elim (Bool-cases (ltb m.keep_n (length m.entries))) [
  | inl e ↦ rw e (select_spared m _ id _ h)
  | inr e ↦ rw e (unfold contains_id in refl)
]
chosen_spared on_exit now m id h = unfold contains_id in refl
chosen_spared (unknown _) now m id h = unfold contains_id in refl

-- `Cleanup` deletes the conversations whose ids it answers, and only those.
pub cleanup_lem :
    (now : ℕ) (m : Manager) (id : String)
    → lookup id (cleanup now m).1.entries
      ≡ (if contains_id id (cleanup now m).0 then none else lookup id m.entries)
unfolding cleanup
cleanup_lem now m id = lookup-delete_all id (chosen m.mode now m) m.entries

-- A whitelisted conversation is there after `Cleanup` as it was before, in every mode.
pub cleanup_spares :
    (now : ℕ) (m : Manager) (id : String)
    → is_whitelisted m id ≡ true
    → lookup id (cleanup now m).1.entries ≡ lookup id m.entries
unfolding cleanup
cleanup_spares now m id h =
    lookup-delete_all id (chosen m.mode now m) m.entries ∙ rw (chosen_spared m.mode now m id h)

-- Whether the entry found under the id is one that `select` takes.
abbrev pub is_selected :
    Manager → (ManagedConversation → Bool) → String → Option ManagedConversation → Bool
is_selected m test id none = false
is_selected m test id (some c) = not (is_whitelisted m id) && test c

select-none :
    (m : Manager) (test : ManagedConversation → Bool) (id : String)
    (entries : Map String ManagedConversation)
    → lookup id entries ≡ none
    → contains_id id (select m test entries) ≡ false
unfolding select contains_id lookup
select-none m test id [] h = refl
select-none m test id ((j, c) ∷ rest) h = ground (arith, ==_iff j id, select-none m test id rest)

select_lem :
    (m : Manager) (test : ManagedConversation → Bool) (id : String)
    (entries : Map String ManagedConversation)
    → DistinctKeys entries
    → contains_id id (select m test entries) ≡ is_selected m test id (lookup id entries)
unfolding select contains_id lookup
select_lem m test id [] d = refl
select_lem m test id ((j, c) ∷ rest) d =
    ground (arith, ==_iff j id, select_lem m test id rest d.1, select-none m test id rest, d.0)

abbrev pub is_expired : Mode → ℕ → ℕ → ManagedConversation → Bool
is_expired after_response limit now c = ltb (c.last_used_at + 30) now
is_expired max_age limit now c = ltb (c.created_at + limit) now
is_expired _ limit now c = false

abbrev pub keeps_by_count : Mode → Bool
keeps_by_count keep_latest = true
keeps_by_count _ = false

none_selected :
    (m : Manager) (id : String) (o : Option ManagedConversation)
    → false ≡ is_selected m (λ _. false) id o
none_selected m id none = refl
none_selected m id (some c) = ground arith

chosen_lem :
    (k : Mode) (now : ℕ) (m : Manager) (id : String)
    → keeps_by_count k ≡ false
    → DistinctKeys m.entries
    → contains_id id (chosen k now m)
      ≡ is_selected m (is_expired k m.age_limit now) id (lookup id m.entries)
unfolding chosen contains_id
chosen_lem after_response now m id h d = select_lem m _ id m.entries d
chosen_lem max_age now m id h d = select_lem m _ id m.entries d
chosen_lem keep_latest now m id h d = ground arith
chosen_lem on_exit now m id h d = none_selected m id (lookup id m.entries)
chosen_lem (unknown _) now m id h d = none_selected m id (lookup id m.entries)

-- In the modes that go by age, on a map without a repeated id, `Cleanup` deletes a conversation
-- exactly if it is past its age and not whitelisted; in the modes `on_exit` and unknown it
-- deletes none.
pub cleanup_by_age :
    (now : ℕ) (m : Manager) (id : String)
    → keeps_by_count m.mode ≡ false
    → DistinctKeys m.entries
    → lookup id (cleanup now m).1.entries ≡ (
        if is_selected m (is_expired m.mode m.age_limit now) id (lookup id m.entries)
        then none
        else lookup id m.entries)
unfolding cleanup
cleanup_by_age now m id h d =
    lookup-delete_all id (chosen m.mode now m) m.entries ∙ rw (chosen_lem m.mode now m id h d)
