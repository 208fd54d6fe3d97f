-- ===== src/State/Store/Ledger.antt =====
-- testrange/state/store.py: the ledger that the store's operations leave on disk.
use test_range.Prelude.{
  String, ◌≡◌, refl, sym, ap, subst, ◌∙◌, ◌⊎◌, inl, inr, true, false, Option, none, some, List, [],
  ◌∷◌, ◌++◌, map, ◌==◌, any_of, if◌then◌else◌, Bool-cases, Option-cases, ok,
}
use test_range.Errors.{raise, state_error}
use test_range.State.Json.{Fields, get_field}
use test_range.State.Json.Merge.{newest, get_field-merge}
use test_range.State.Schema.{
  Resource, State, schema_version, with_resource, replace_resource, remove_resource, with_outcome,
}
use test_range.State.Codec.{to_json}
use test_range.State.Codec.RoundTrip.{from_json-to_json}
use test_range.State.Store.Effects.{Disk, json, perform}
use test_range.State.Store.{
  parse_content, read, write_state_atomic, record_intent, confirm, confirm_found, find_resource,
  forget, set_phase,
}
use test_range.State.Store.Lookup.{IsFirst, find_resource-IsFirst, find_resource-none}

-- The state file holds `s`.
pub record Holds (d : Disk) (s : State) : Type 0 where
  pub file : d.state_json ≡ some (json (to_json s))
  pub current : s.version ≡ schema_version

pub read-Holds : (d : Disk) (s : State) → Holds d s → read d ≡ (ok s, d)
unfolding read
read-Holds d s h =
    ap (λ c. (parse_content c, d)) h.file ∙ ap (λ r. (r, d)) (from_json-to_json s h.current)

-- What a write leaves: the new state, and nothing else changed.
abbrev pub written : State → Disk → Disk
written s d = record d { state_json = some (json (to_json s)); state_partial = none }

write_lem : (s : State) (d : Disk) → perform (write_state_atomic s) d ≡ (ok tt, written s d)
unfolding write_state_atomic perform
write_lem s d = refl

-- A resource that is to be created, as the ledger has it.
abbrev pub intended : (now kind backend_name : String) → Option String → Fields → Resource
intended now kind backend_name plan_name metadata = record {
  kind = kind;
  backend_name = backend_name;
  plan_name = plan_name;
  intent_at = now;
  outcome_at = none;
  metadata = metadata;
}

-- On a run directory that holds a state, `record_intent` returns the resource with what it was called with,
-- the time and no outcome; the state file then holds the same state but for that resource, the last of
-- the ledger, and a reader finds it there.
pub record_intent-Holds :
    (now kind backend_name : String) (plan_name : Option String) (metadata : Fields) (d : Disk)
    (s : State)
    → Holds d s
    → (record_intent now kind backend_name plan_name metadata d ≡ (
      ok (intended now kind backend_name plan_name metadata),
      written
          (record s {
            resources = s.resources ++ intended now kind backend_name plan_name metadata ∷ [];
          })
          d,
    ))
      × ((read (record_intent now kind backend_name plan_name metadata d).1).0
          ≡ ok (record s {
            resources = s.resources ++ intended now kind backend_name plan_name metadata ∷ [];
          }))
record_intent-Holds now kind backend_name plan_name metadata d s h =
    let new : Resource = intended now kind backend_name plan_name metadata in
    let after : State = record s { resources = s.resources ++ new ∷ [] } in
    let run : record_intent now kind backend_name plan_name metadata d ≡ (ok new, written after d) =
      unfold record_intent with_resource in rw (read-Holds d s h) refl in
    let found : (read (written after d)).0 ≡ ok after =
      ap (λ p. p.0)
        (read-Holds (written after d) after (record { file = refl; current = h.current })) in
    (run, subst (λ p. (read p.1).0 ≡ ok after) (sym run) found)

-- `forget` leaves exactly the resources of other names, in their order.
pub forget-Holds :
    (backend_name : String) (d : Disk) (s : State)
    → Holds d s
    → forget backend_name d ≡ (ok tt, written (remove_resource s backend_name) d)
unfolding forget
forget-Holds backend_name d s h = rw (read-Holds d s h)

pub set_phase-Holds :
    (phase : String) (d : Disk) (s : State)
    → Holds d s
    → set_phase phase d ≡ (ok tt, written (record s { phase = phase }) d)
unfolding set_phase
set_phase-Holds phase d s h = rw (read-Holds d s h)

find_resource-any :
    (rs : List Resource) (name : String) {r : Resource}
    → find_resource rs name ≡ some r
    → any_of (λ x. x.backend_name == name) rs ≡ true
unfolding find_resource
find_resource-any [] name h = cc
find_resource-any (x ∷ rs) name h = elim (Bool-cases (x.backend_name == name)) [
  | inl here ↦ rw here
  | inr other ↦ rw other (find_resource-any rs name (rw other at h))
]

-- The state with the resources of one name completed.
abbrev pub completed : State → String → Resource → State
completed s name new = record s {
  resources = map (λ x. if x.backend_name == name then new else x) s.resources;
}

confirm_step :
    (now name : String) (metadata : Fields) (d : Disk) (s : State)
    → Holds d s
    → confirm now name metadata d
      ≡ confirm_found now name metadata s (find_resource s.resources name) d
unfolding confirm
confirm_step now name metadata d s h = rw (read-Holds d s h)

confirm_some :
    (now name : String) (metadata : Fields) (d : Disk) (s : State) (r : Resource)
    → find_resource s.resources name ≡ some r
    → confirm_found now name metadata s (some r) d
      ≡ (ok tt, written (completed s name (with_outcome r now metadata)) d)
unfolding confirm_found replace_resource
confirm_some now name metadata d s r found = rw (find_resource-any s.resources name found)

confirm_none :
    (now name : String) (metadata : Fields) (d : Disk) (s : State)
    → confirm_found now name metadata s none d ≡ (raise state_error [], d)
unfolding confirm_found
confirm_none now name metadata d s = refl

-- `r` with an outcome at the time, and with the metadata of the call over its own.
pub record IsCompleted (now : String) (extra : Fields) (r done : Resource) : Type 0 where
  pub kind : done.kind ≡ r.kind
  pub backend_name : done.backend_name ≡ r.backend_name
  pub plan_name : done.plan_name ≡ r.plan_name
  pub intent_at : done.intent_at ≡ r.intent_at
  pub outcome_at : done.outcome_at ≡ some now
  pub metadata :
      (key : String) → get_field done.metadata key ≡ newest (get_field r.metadata key) extra key

with_outcome-IsCompleted :
    (now : String) (extra : Fields) (r : Resource)
    → IsCompleted now extra r (with_outcome r now extra)
unfolding with_outcome
with_outcome-IsCompleted now extra r = record {
  kind = refl;
  backend_name = refl;
  plan_name = refl;
  intent_at = refl;
  outcome_at = refl;
  metadata = get_field-merge r.metadata extra;
}

-- On a run directory that holds a state: `confirm` on a recorded name writes the state in which the
-- resources of that name are the first such one with the time as its outcome and the metadata of the call
-- over its own; on a name that is not recorded it raises `StateError` and writes nothing.
pub confirm-Holds :
    (now name : String) (metadata : Fields) (d : Disk) (s : State)
    → Holds d s
    → ((r done : Resource) × IsFirst name r s.resources
        × IsCompleted now metadata r done
        × (confirm now name metadata d ≡ (ok tt, written (completed s name done) d)))
      ⊎ (any_of (λ x. x.backend_name == name) s.resources ≡ false)
        × (confirm now name metadata d ≡ (raise state_error [], d))
confirm-Holds now name metadata d s h =
    let step = confirm_step now name metadata d s h in
    elim (Option-cases (find_resource s.resources name)) [
      | inl (r, e) ↦ inl (
        r,
        with_outcome r now metadata,
        find_resource-IsFirst s.resources name r e,
        with_outcome-IsCompleted now metadata r,
        step
            ∙ ap (λ o. confirm_found now name metadata s o d) e
            ∙ confirm_some now name metadata d s r e,
      )
      | inr e ↦ inr (
        find_resource-none s.resources name e,
        step
            ∙ ap (λ o. confirm_found now name metadata s o d) e
            ∙ confirm_none now name metadata d s,
      )
    ]
