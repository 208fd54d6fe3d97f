-- ===== src/Networks/Addressing/Wire.antt =====
-- testrange/networks/validate.py, `validate_addressing`: static addresses on one wire.
use test_range.Prelude.{
  ℕ, suc, String, Bool, true, false, ◌&&◌, ◌||◌, Option, none, some, List, [], ◌∷◌, ◌++◌, ◌≡◌, refl,
  ap, ◌∙◌, inl, inr, Bool-cases, eqb, arith, Dict, get, put, get-put, ok, ◌==◌, eq_iff,
  if◌then◌else◌, subst,
}
use test_range.Networks.Switch.{Switch}
use test_range.Networks.Machine.{Address, static, lease, unconfigured, NetworkIface, VmSpec, nics}
use test_range.Networks.Addressing.{
  Origin, Trouble, Scan, add_problem, static_trouble, note_seen, place, find_seen, seen_on, or_nil,
  check_address, check_on, check_nics, check_vms, switch_for, validate_addressing,
}
use test_range.Networks.Addressing.Free.{
  snoc-not_nil, report-quiet, check_nics-quiet, check_vms-quiet,
}

-- The switch and the address that a NIC uses, if its address is static and its network is declared.
pub use_of : Option Switch → Address → List (String × ℕ)
use_of none a = []
use_of (some s) (static a) = (s.name, a.host) ∷ []
use_of (some s) lease = []
use_of (some s) unconfigured = []

pub uses : Dict Switch → List NetworkIface → List (String × ℕ)
uses d [] = []
uses d (n ∷ ns) = use_of (get d n.network.name) n.addr ++ uses d ns

pub all_uses : Dict Switch → List VmSpec → List (String × ℕ)
all_uses d [] = []
all_uses d (v ∷ vs) = uses d (nics v.devices) ++ all_uses d vs

pub is_used : String → ℕ → List (String × ℕ) → Bool
is_used s a [] = false
is_used s a ((t, b) ∷ us) = t == s && eqb b a || is_used s a us

-- No switch has the same address twice.
pub IsSeparate : List (String × ℕ) → Type 0
IsSeparate [] = Unit
IsSeparate ((s, a) ∷ us) = (is_used s a us ≡ false) × IsSeparate us

is_found : Option Origin → Bool
is_found none = false
is_found (some o) = true

is_seen : Scan → String → ℕ → Bool
is_seen c s a = is_found (find_seen (seen_on c.seen_per_switch s) a)

is_used-append :
    (s : String) (a : ℕ) (xs ys : List (String × ℕ))
    → is_used s a (xs ++ ys) ≡ (is_used s a xs || is_used s a ys)
unfolding is_used
is_used-append s a [] ys = refl
is_used-append s a ((t, b) ∷ xs) ys = ground (arith, is_used-append s a xs ys)

used_self : (s : String) (a : ℕ) (xs : List (String × ℕ)) → is_used s a ((s, a) ∷ xs) ≡ true
unfolding is_used
used_self s a xs = ground (arith, eq_iff s s)

used_later :
    (s t : String) (a b : ℕ) (xs : List (String × ℕ))
    → is_used s a xs ≡ true
    → is_used s a ((t, b) ∷ xs) ≡ true
unfolding is_used
used_later s t a b xs h = ground arith

or_false : (x y : Bool) → x ≡ false → y ≡ false → (x || y) ≡ false
or_false x y hx hy = ground arith

IsSeparate-append :
    (xs ys : List (String × ℕ))
    → IsSeparate xs
    → IsSeparate ys
    → ((s : String) (a : ℕ) → is_used s a xs ≡ true → is_used s a ys ≡ false)
    → IsSeparate (xs ++ ys)
unfolding IsSeparate
IsSeparate-append [] ys hx hy apart = hy
IsSeparate-append ((s, a) ∷ xs) ys hx hy apart = (
  is_used-append s a xs ys
      ∙ or_false (is_used s a xs) (is_used s a ys) hx.0 (apart s a (used_self s a xs)),
  IsSeparate-append xs ys hx.1 hy (λ t b m. apart t b (used_later t s b a xs m)),
)

-- A stretch of the scan without a problem, and the addresses it placed.
record Stretch (before after : Scan) (us : List (String × ℕ)) : Type 0 where
  fresh : (s : String) (a : ℕ) → is_used s a us ≡ true → is_seen before s a ≡ false
  separate : IsSeparate us
  seen : (s : String) (a : ℕ) → is_seen after s a ≡ (is_seen before s a || is_used s a us)

Stretch-nil : (c : Scan) → Stretch c c []
unfolding is_used IsSeparate
Stretch-nil c = record { fresh = λ s a m. cc; separate = tt; seen = λ s a. ground arith }

Stretch-append :
    (c c' c'' : Scan) (xs ys : List (String × ℕ))
    → Stretch c c' xs
    → Stretch c' c'' ys
    → Stretch c c'' (xs ++ ys)
Stretch-append c c' c'' xs ys f g = record {
  fresh = λ s a m. ground (arith, is_used-append s a xs ys, f.fresh s a, g.fresh s a, f.seen s a);
  separate =
      IsSeparate-append xs ys f.separate g.separate
        (λ s a m. ground (arith, g.fresh s a, f.seen s a));
  seen = λ s a. ground (arith, is_used-append s a xs ys, f.seen s a, g.seen s a);
}

seen_on-put :
    (d : Dict (List (ℕ × Origin))) (s t : String) (v : List (ℕ × Origin))
    → seen_on (put d s v) t ≡ (if s == t then v else seen_on d t)
unfolding seen_on or_nil
seen_on-put d s t v = elim (Bool-cases (s == t)) [
  | inl same ↦ ap or_nil (get-put d s t v) ∙ rw same refl
  | inr other ↦ ap or_nil (get-put d s t v) ∙ rw other refl
]

eqb-eq : (a b : ℕ) → eqb a b ≡ true → a ≡ b
eqb-eq a b h = ground arith

find_seen-cons :
    (b a : ℕ) (o : Origin) (l : List (ℕ × Origin))
    → is_found (find_seen ((b, o) ∷ l) a) ≡ (eqb b a || is_found (find_seen l a))
unfolding find_seen is_found
find_seen-cons b a o l = elim (Bool-cases (eqb b a)) [
  | inl same ↦ rw same refl
  | inr other ↦ rw other refl
]

note_seen-Stretch :
    (s : Switch) (a : ℕ) (o : Origin) (prior : Option Origin) (c : Scan)
    → find_seen (seen_on c.seen_per_switch s.name) a ≡ prior
    → (note_seen s a o prior c).problems ≡ []
    → Stretch c (note_seen s a o prior c) ((s.name, a) ∷ [])
unfolding note_seen add_problem is_used IsSeparate is_seen is_found
note_seen-Stretch s a o (some p) c e h = absurd (snoc-not_nil c.problems _ h)
note_seen-Stretch s a o none c e h = record {
  fresh = λ t b m.
      let same : s.name ≡ t = (eq_iff s.name t).0 (ground arith) in
      let address : a ≡ b = eqb-eq a b (ground arith) in
      subst (λ z. is_seen c z b ≡ false) same
        (subst (λ z. is_seen c s.name z ≡ false) address (ap is_found e));
  separate = (refl, tt);
  seen = λ t b. elim (Bool-cases (s.name == t)) [
    | inl same ↦
        let names : s.name ≡ t = (eq_iff s.name t).0 same in
        rw
          (seen_on-put c.seen_per_switch s.name t ((a, o) ∷ seen_on c.seen_per_switch s.name), same)
          (find_seen-cons a b o (seen_on c.seen_per_switch s.name)
            ∙ subst
                (λ z.
                  (eqb a b || is_seen c s.name b) ≡ (is_seen c z b || (true && eqb a b || false)))
                names (ground arith))
    | inr other ↦
        rw
          (
            seen_on-put c.seen_per_switch s.name t ((a, o) ∷ seen_on c.seen_per_switch s.name),
            other,
          )
          (ground arith)
  ];
}

place-Stretch :
    (s : Switch) (a : ℕ) (o : Origin) (t : Option Trouble) (c : Scan)
    → (place s a o t c).problems ≡ []
    → Stretch c (place s a o t c) ((s.name, a) ∷ [])
unfolding place add_problem
place-Stretch s a o (some t) c h = absurd (snoc-not_nil c.problems _ h)
place-Stretch s a o none c h =
    note_seen-Stretch s a o (find_seen (seen_on c.seen_per_switch s.name) a) c refl h

check_on-Stretch :
    (found : Option Switch) (o : Origin) (a : Address) (c : Scan)
    → (check_on found o a c).problems ≡ []
    → Stretch c (check_on found o a c) (use_of found a)
unfolding check_on check_address use_of add_problem
check_on-Stretch none o a c h = absurd (snoc-not_nil c.problems _ h)
check_on-Stretch (some s) o (static a) c h = place-Stretch s a.host o (static_trouble s a.host) c h
check_on-Stretch (some s) o lease c h = Stretch-nil c
check_on-Stretch (some s) o unconfigured c h = Stretch-nil c

module _ (d : Dict Switch) where
  check_nics-Stretch :
      (vm : String) (i : ℕ) (ns : List NetworkIface) (c : Scan)
      → (check_nics d vm i ns c).problems ≡ []
      → Stretch c (check_nics d vm i ns c) (uses d ns)
  unfolding check_nics uses
  check_nics-Stretch vm i [] c h = Stretch-nil c
  check_nics-Stretch vm i (n ∷ ns) c h =
      let o : Origin = record { vm = vm; index = i; network = n.network.name } in
      let c' : Scan = check_on (get d n.network.name) o n.addr c in
      Stretch-append c c' (check_nics d vm (suc i) ns c') (use_of (get d n.network.name) n.addr)
        (uses d ns)
        (check_on-Stretch (get d n.network.name) o n.addr c
          (check_nics-quiet d vm (suc i) ns c' h).1)
        (check_nics-Stretch vm (suc i) ns c' h)

  check_vms-Stretch :
      (vs : List VmSpec) (c : Scan)
      → (check_vms d vs c).problems ≡ []
      → Stretch c (check_vms d vs c) (all_uses d vs)
  unfolding check_vms all_uses
  check_vms-Stretch [] c h = Stretch-nil c
  check_vms-Stretch (v ∷ vs) c h =
      let c' : Scan = check_nics d v.name 0 (nics v.devices) c in
      Stretch-append c c' (check_vms d vs c') (uses d (nics v.devices)) (all_uses d vs)
        (check_nics-Stretch v.name 0 (nics v.devices) c (check_vms-quiet d vs c' h).1)
        (check_vms-Stretch vs c' h)

-- If `validate_addressing` accepts the machines of a plan, no two of their NICs use the same static
-- address on the same switch, told by its name, whichever of the switch's networks they name.
pub validate_addressing-IsSeparate :
    (switches : List Switch) (vms : List VmSpec)
    → validate_addressing switches vms ≡ ok tt
    → IsSeparate (all_uses (switch_for switches []) vms)
unfolding validate_addressing
validate_addressing-IsSeparate switches vms h =
    let d : Dict Switch = switch_for switches [] in
    let start : Scan = record { seen_per_switch = []; problems = [] } in
    (check_vms-Stretch d vms start (report-quiet (check_vms d vms start).problems h)).separate
