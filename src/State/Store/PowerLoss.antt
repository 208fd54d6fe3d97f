-- ===== src/State/Store/PowerLoss.antt =====
-- testrange/utils/fsutil.py and `_write_state_atomic` of testrange/state/store.py: what a power loss
-- leaves of `state.json`. The data of a file survives for certain only once the file is synced, and a
-- replacement only once the directory is.
use test_range.Prelude.{
  Bool, true, false, ◌≡◌, refl, subst, ◌⊎◌, inl, inr, Option, none, some, List, [], ◌∷◌, ◌++◌, ◌&◌,
  All, ok,
}
use test_range.State.Schema.{State, schema_version}
use test_range.State.Codec.{to_json}
use test_range.State.Codec.RoundTrip.{from_json-to_json}
use test_range.State.Store.Effects.{
  Content, json, corrupt, StateFile, target, temporary, FileStep, open_file, sync_file, write_file,
  replace_target, sync_directory,
}
use test_range.State.Store.{write_state_atomic, parse_content}

-- The two files with what is synced of them, and the contents that `state.json` may still have on the
-- disk because its replacement is not.
pub record Storage : Type 0 where
  pub temp : Option Content
  pub temp_synced : Bool
  pub main : Option Content
  pub main_synced : Bool
  pub earlier : List (Option Content)

-- What may be left of one file.
abbrev pub remains : Bool → Option Content → List (Option Content)
remains true c = c ∷ []
remains false c = c ∷ some corrupt ∷ []

abbrev moved : Option Content → Storage → Storage
moved none st = st
moved (some c) st = record {
  temp = none;
  temp_synced = true;
  main = some c;
  main_synced = st.temp_synced;
  earlier = remains st.main_synced st.main ++ st.earlier;
}

abbrev hold : StateFile → Content → Storage → Storage
hold target c st = record st { main = some c; main_synced = false }
hold temporary c st = record st { temp = some c; temp_synced = false }

abbrev synced : StateFile → Storage → Storage
synced target st = record st { main_synced = true }
synced temporary st = record st { temp_synced = true }

abbrev pub store_step : FileStep → Storage → Storage
store_step (open_file f) st = hold f corrupt st
store_step (write_file f j) st = hold f (json j) st
store_step (sync_file f) st = synced f st
store_step replace_target st = moved st.temp st
store_step sync_directory st = record st { earlier = [] }

abbrev pub store_steps : List FileStep → Storage → Storage
store_steps [] st = st
store_steps (w ∷ ws) st = store_steps ws (store_step w st)

-- The contents of which one is found after a power loss.
abbrev pub left_over : Storage → List (Option Content)
left_over st = remains st.main_synced st.main ++ st.earlier

abbrev pub ParsesEither : State → State → Option Content → Type 0
ParsesEither old new c = (parse_content c ≡ ok old) ⊎ (parse_content c ≡ ok new)

abbrev Lasting : (Storage → Type 0) → List FileStep → Storage → Type 0
Lasting P [] st = P st
Lasting P (w ∷ ws) st = P st × Lasting P ws (store_step w st)

Lasting-split :
    (P : Storage → Type 0) (front back : List FileStep) (st : Storage)
    → Lasting P (front ++ back) st
    → P (store_steps front st)
Lasting-split P [] [] st h = h
Lasting-split P [] (w ∷ back) st h = h.0
Lasting-split P (w ∷ front) back st h = Lasting-split P front back (store_step w st) h.1

-- `state.json` is on the disk, with nothing pending, beside whatever temporary file.
abbrev pub stored : Option Content → Bool → State → Storage
stored temp temp_synced s = record {
  temp = temp;
  temp_synced = temp_synced;
  main = some (json (to_json s));
  main_synced = true;
  earlier = [];
}

write_state_atomic-Lasting :
    (temp : Option Content) (temp_synced : Bool) (old new : State)
    → old.version ≡ schema_version
    → new.version ≡ schema_version
    → Lasting
        (λ st. All (ParsesEither old new) (left_over st))
        (write_state_atomic new)
        (stored temp temp_synced old)
unfolding write_state_atomic parse_content
write_state_atomic-Lasting temp temp_synced old new vo vn =
    let was : ParsesEither old new (some (json (to_json old))) = inl (from_json-to_json old vo) in
    let is : ParsesEither old new (some (json (to_json new))) = inr (from_json-to_json new vn) in
    (was & tt) & (was & tt) & (was & tt) & (was & tt) & (is & was & tt) & is & tt

-- If a state lies on the disk with nothing pending, beside whatever temporary file, then whichever of
-- the steps of `_write_state_atomic` a power loss cuts off, every content that it may leave of the state
-- file parses as the old state or as the new one, for states of the current schema version; and once
-- all the steps are done nothing but the new state may be left.
pub write_state_atomic-left_over :
    (temp : Option Content) (temp_synced : Bool) (old new : State) (front back : List FileStep)
    → old.version ≡ schema_version
    → new.version ≡ schema_version
    → write_state_atomic new ≡ front ++ back
    → All (ParsesEither old new) (left_over (store_steps front (stored temp temp_synced old)))
      × (left_over (store_steps (write_state_atomic new) (stored temp temp_synced old))
          ≡ some (json (to_json new)) ∷ [])
write_state_atomic-left_over temp temp_synced old new front back vo vn split = (
  Lasting-split (λ st. All (ParsesEither old new) (left_over st)) front back
      (stored temp temp_synced old)
      (subst
        (λ ws.
          Lasting (λ st. All (ParsesEither old new) (left_over st)) ws
            (stored temp temp_synced old))
        split (write_state_atomic-Lasting temp temp_synced old new vo vn)),
  unfold write_state_atomic in refl,
)
