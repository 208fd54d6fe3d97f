-- ===== src/State/Store/Stamps.antt =====
-- testrange/state/store.py: the completion stamps of the nodes in the ledger.
use test_range.Prelude.{
  String, ◌≡◌, refl, ap, subst, not, Option, none, some, List, [], ◌∷◌, ◌++◌, ◌==◌, eq_iff, arith,
  keep_if, if◌then◌else◌, Bool-cases, inl, inr, ok,
}
use test_range.State.Schema.{NodeRecord, State, with_node_record, node_record, find_record}
use test_range.State.Store.Effects.{Disk}
use test_range.State.Store.{mark_node_materialized, mark_node_realized, prior_record, record_or_new}
use test_range.State.Store.Ledger.{Holds, read-Holds, written}

find_record-append :
    (ns : List NodeRecord) (n : NodeRecord) (name : String)
    → find_record (keep_if (λ m. not (m.name == n.name)) ns ++ n ∷ []) name
      ≡ (if n.name == name then some n else find_record ns name)
unfolding find_record
find_record-append [] n name = ground arith
find_record-append (m ∷ ns) n name = ground (
  arith,
  eq_iff m.name n.name,
  eq_iff m.name name,
  eq_iff n.name name,
  find_record-append ns n name,
)

-- The ledger entry of a node after an upsert: the new one for its name, the old one for any other.
pub node_record-with_node_record :
    (s : State) (n : NodeRecord) (name : String)
    → node_record (with_node_record s n) name
      ≡ (if n.name == name then some n else node_record s name)
unfolding node_record with_node_record
node_record-with_node_record s n name = find_record-append s.nodes n name

find_record-name :
    (ns : List NodeRecord) (name : String) → (record_or_new name (find_record ns name)).name ≡ name
unfolding find_record record_or_new
find_record-name [] name = refl
find_record-name (n ∷ ns) name = elim (Bool-cases (n.name == name)) [
  | inl here ↦ rw here ((eq_iff n.name name).0 here)
  | inr other ↦ rw other (find_record-name ns name)
]

prior_record-name : (s : State) (name : String) → (prior_record s name).name ≡ name
unfolding node_record
prior_record-name s name = find_record-name s.nodes name

-- The stamps of an entry, none where there is no entry.
abbrev pub materialized_stamp : Option NodeRecord → Option String
materialized_stamp none = none
materialized_stamp (some n) = n.materialized_at

abbrev pub realized_stamp : Option NodeRecord → Option String
realized_stamp none = none
realized_stamp (some n) = n.realized_at

-- The state but for its nodes is `s`, and of these only the one of the name is changed, to `n`.
pub record IsUpdate (name : String) (n : NodeRecord) (s after : State) : Type 0 where
  pub rest : record after { nodes = s.nodes } ≡ s
  pub entry :
      (other : String)
      → node_record after other ≡ (if name == other then some n else node_record s other)

with_node_record-IsUpdate :
    (s : State) (n : NodeRecord) (name : String)
    → n.name ≡ name
    → IsUpdate name n s (with_node_record s n)
with_node_record-IsUpdate s n name own = record {
  rest = unfold with_node_record in refl;
  entry = λ other.
      subst
        (λ z.
          node_record (with_node_record s n) other
          ≡ (if z == other then some n else node_record s other))
        own (node_record-with_node_record s n other);
}

prior_record-stamps :
    (o : Option NodeRecord) (name : String)
    → (record_or_new name o).name ≡ name
    → record_or_new name o ≡ record {
      name = name;
      materialized_at = materialized_stamp o;
      realized_at = realized_stamp o;
    }
unfolding record_or_new
prior_record-stamps none name own = refl
prior_record-stamps (some n) name own =
    ap (λ z. record { name = z; materialized_at = n.materialized_at; realized_at = n.realized_at })
      own

-- The entry of a node that is materialized now.
abbrev pub materialized_now : (now name : String) → State → NodeRecord
materialized_now now name s = record {
  name = name;
  materialized_at = some now;
  realized_at = realized_stamp (node_record s name);
}

-- On a run directory that holds a state, marking a node as materialized writes a state in which the
-- node's entry has the time as its stamp and the other stamp that it had, none if it had no entry; every
-- other node's entry, and all else in the state, is what it was.
pub mark_node_materialized-Holds :
    (now name : String) (d : Disk) (s : State)
    → Holds d s
    → (after : State) × (mark_node_materialized now name d ≡ (ok tt, written after d))
      × IsUpdate name (materialized_now now name s) s after
unfolding mark_node_materialized
mark_node_materialized-Holds now name d s h =
    let n : NodeRecord = record (prior_record s name) { materialized_at = some now } in
    let same : n ≡ materialized_now now name s =
      ap (λ (z : NodeRecord). record z { materialized_at = some now })
        (prior_record-stamps (node_record s name) name (prior_record-name s name)) in
    (
      with_node_record s n,
      rw (read-Holds d s h),
      subst (λ z. IsUpdate name z s (with_node_record s n)) same
          (with_node_record-IsUpdate s n name (prior_record-name s name)),
    )

-- The entry of a node that is realized now.
abbrev pub realized_now : (now name : String) → State → NodeRecord
realized_now now name s = record {
  name = name;
  materialized_at = materialized_stamp (node_record s name);
  realized_at = some now;
}

-- On a run directory that holds a state, marking a node as realized writes a state in which the
-- node's entry has the time as its stamp and the other stamp that it had, none if it had no entry; every
-- other node's entry, and all else in the state, is what it was.
pub mark_node_realized-Holds :
    (now name : String) (d : Disk) (s : State)
    → Holds d s
    → (after : State) × (mark_node_realized now name d ≡ (ok tt, written after d))
      × IsUpdate name (realized_now now name s) s after
unfolding mark_node_realized
mark_node_realized-Holds now name d s h =
    let n : NodeRecord = record (prior_record s name) { realized_at = some now } in
    let same : n ≡ realized_now now name s =
      ap (λ (z : NodeRecord). record z { realized_at = some now })
        (prior_record-stamps (node_record s name) name (prior_record-name s name)) in
    (
      with_node_record s n,
      rw (read-Holds d s h),
      subst (λ z. IsUpdate name z s (with_node_record s n)) same
          (with_node_record-IsUpdate s n name (prior_record-name s name)),
    )
