-- ===== src/State/Store/Lookup.antt =====
-- testrange/state/store.py: the resource that the loop of `confirm` stops at.
use test_range.Prelude.{
  String, ◌≡◌, refl, ap, subst, false, Option, none, some, List, [], ◌∷◌, ◌++◌, ◌==◌, eq_iff,
  any_of, Bool-cases, inl, inr,
}
use test_range.State.Schema.{Resource}
use test_range.State.Store.{find_resource}

-- The first resource of a name.
pub record IsFirst (name : String) (r : Resource) (rs : List Resource) : Type 0 where
  pub front : List Resource
  pub back : List Resource
  pub split : rs ≡ front ++ r ∷ back
  pub named : r.backend_name ≡ name
  pub others : any_of (λ x. x.backend_name == name) front ≡ false

pub find_resource-IsFirst :
    (rs : List Resource) (name : String) (r : Resource)
    → find_resource rs name ≡ some r
    → IsFirst name r rs
unfolding find_resource
find_resource-IsFirst [] name r e = cc
find_resource-IsFirst (x ∷ rs) name r e = elim (Bool-cases (x.backend_name == name)) [
  | inl here ↦
      let found : some x ≡ some r = rw here at e in
      let same : x ≡ r = cc in
      record {
        front = [];
        back = rs;
        split = ap (λ z. z ∷ rs) same;
        named =
            subst (λ (z : Resource). z.backend_name ≡ name) same
              ((eq_iff x.backend_name name).0 here);
        others = refl;
      }
  | inr other ↦
      let f : IsFirst name r rs = find_resource-IsFirst rs name r (rw other at e) in
      record {
        front = x ∷ f.front;
        back = f.back;
        split = ap (λ z. x ∷ z) f.split;
        named = f.named;
        others = rw other f.others;
      }
]

pub find_resource-none :
    (rs : List Resource) (name : String)
    → find_resource rs name ≡ none
    → any_of (λ x. x.backend_name == name) rs ≡ false
unfolding find_resource
find_resource-none [] name e = refl
find_resource-none (x ∷ rs) name e = elim (Bool-cases (x.backend_name == name)) [
  | inl here ↦ let clash : ◌≡◌ {A = Option Resource} (some x) none = rw here at e in cc
  | inr other ↦ rw other (find_resource-none rs name (rw other at e))
]
