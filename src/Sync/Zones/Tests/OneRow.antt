-- ===== src/Sync/Zones/Tests/OneRow.antt =====
-- A table of availability zones with room for one row, whose id is 1.
use cdm_center.Prelude.{
  ℕ, String, Bool, true, false, ◌&&◌, Option, none, some, List, [], ◌∷◌, ◌==◌, ◌≡◌, ◌≢◌, refl, sym,
  ap, ◌∙◌, subst, if◌then◌else◌, String-Eq, ℕ-Eq, nat_eq, str_eq, Bool-cases, inl, inr, arith,
  eq_iff, nat_eq_iff,
}
use cdm_center.Prelude.Lists.{any, All}
use cdm_center.Sync.Zones.{Zone, Found, Database, Lawful}

pub record Slot : Type 0 where
  pub cluster : ℕ
  pub zone_name : String
  pub is_available : Bool

abbrev pub Table : Type 0
Table = Option Slot

abbrev pub zone_of : Slot → Zone
zone_of t = record {
  id = 1;
  cluster_id = t.cluster;
  name = t.zone_name;
  available = t.is_available;
}

abbrev pub slot_of : Zone → Slot
slot_of z = record { cluster = z.cluster_id; zone_name = z.name; is_available = z.available }

abbrev pub row_at : ℕ → Table → Option Zone
row_at id none = none
row_at id (some t) = if nat_eq id 1 then some (zone_of t) else none

abbrev first_of : ℕ → String → Table → Found
first_of c n none = Found.not_found
first_of c n (some t) =
    if nat_eq t.cluster c && str_eq t.zone_name n then Found.found (zone_of t) else Found.not_found

abbrev find_of : ℕ → Table → Option (List Zone)
find_of c none = some []
find_of c (some t) = if nat_eq t.cluster c then some (zone_of t ∷ []) else some []

abbrev save_in : Zone → Table → Option (Zone × Table)
save_in z none = if nat_eq z.id 0 then some (record z { id = 1 }, some (slot_of z)) else none
save_in z (some t) = if nat_eq z.id 1 then some (z, some (slot_of z)) else none

abbrev delete_from : Zone → Table → Option Table
delete_from z s = if nat_eq z.id 1 then some none else some s

abbrev pub table : Database Table
table = record {
  first = first_of;
  find = find_of;
  save = save_in;
  delete = delete_from;
  instances = λ id s. some [];
  hypervisors = λ id s. some [];
  delete_instance = λ i s. (s, none);
  delete_hypervisor = λ h s. (s, none);
}

some-injective {ℓ} : {A : Type ℓ} {a b : A} → some a ≡ some b → a ≡ b
some-injective {a} h = ap (λ o. elim o [ none ↦ a | some x ↦ x ]) h

found-injective : {a b : Zone} → Found.found a ≡ Found.found b → a ≡ b
found-injective {a} h = ap (λ f. elim f [ Found.found x ↦ x | _ ↦ a ]) h

pub row_at-id : (id : ℕ) (s : Table) (z : Zone) → row_at id s ≡ some z → z.id ≡ id
row_at-id id none z h = absurd (ground (arith, h))
row_at-id id (some t) z h = elim (Bool-cases (nat_eq id 1)) [
  | inl e ↦
      let whole : some (zone_of t) ≡ some z = ground (arith, h, e) in
      let one = ap (λ x. x.id) (some-injective whole) in sym one ∙ sym ((nat_eq_iff id 1).0 e)
  | inr e ↦ absurd (ground (arith, h, e))
]

pub first_of-found :
    (c : ℕ) (n : String) (s : Table) (z : Zone)
    → first_of c n s ≡ Found.found z
    → (row_at z.id s ≡ some z) × (z.cluster_id ≡ c) × (z.name ≡ n)
first_of-found c n none z h = absurd (ground (arith, h))
first_of-found c n (some t) z h = elim (Bool-cases (nat_eq t.cluster c && str_eq t.zone_name n)) [
  | inl e ↦
      let whole : Found.found (zone_of t) ≡ Found.found z = ground (arith, h, e) in
      let c' : nat_eq t.cluster c ≡ true = ground (arith, e) in
      let n' : str_eq t.zone_name n ≡ true = ground (arith, e) in
      subst (λ x. (row_at x.id (some t) ≡ some x) × (x.cluster_id ≡ c) × (x.name ≡ n))
        (found-injective whole) (refl, (nat_eq_iff t.cluster c).0 c', (eq_iff t.zone_name n).0 n')
  | inr e ↦ absurd (ground (arith, h, e))
]

pub first_of-not_found :
    (c : ℕ) (n : String) (s : Table) (id : ℕ) (z : Zone)
    → first_of c n s ≡ Found.not_found
    → row_at id s ≡ some z
    → z.cluster_id ≡ c
    → z.name ≢ n
first_of-not_found c n none id z h r k m = ground (arith, r)
first_of-not_found c n (some t) id z h r k m =
    let i : nat_eq id 1 ≡ true = ground (arith, r) in
    let whole : some (zone_of t) ≡ some z = ground (arith, r, i) in
    let same = some-injective whole in
    let c' = (nat_eq_iff t.cluster c).1 (ap (λ x. x.cluster_id) same ∙ k) in
    let n' = (eq_iff t.zone_name n).1 (ap (λ x. x.name) same ∙ m) in ground (arith, h, c', n')

pub find_of_sound :
    (c : ℕ) (s : Table) (zs : List Zone)
    → find_of c s ≡ some zs
    → All (λ z. (row_at z.id s ≡ some z) × (z.cluster_id ≡ c)) zs
find_of_sound c none zs h =
    subst (λ l. All (λ z. (row_at z.id none ≡ some z) × (z.cluster_id ≡ c)) l) (some-injective h) tt
find_of_sound c (some t) zs h = elim (Bool-cases (nat_eq t.cluster c)) [
  | inl e ↦
      let whole : some (zone_of t ∷ []) ≡ some zs = ground (arith, h, e) in
      subst (λ l. All (λ z. (row_at z.id (some t) ≡ some z) × (z.cluster_id ≡ c)) l)
        (some-injective whole) ((refl, (nat_eq_iff t.cluster c).0 e), tt)
  | inr e ↦
      let whole : some [] ≡ some zs = ground (arith, h, e) in
      subst (λ l. All (λ z. (row_at z.id (some t) ≡ some z) × (z.cluster_id ≡ c)) l)
        (some-injective whole) tt
]

pub find_of_complete :
    (c : ℕ) (s : Table) (zs : List Zone) (id : ℕ) (z : Zone)
    → find_of c s ≡ some zs
    → row_at id s ≡ some z
    → z.cluster_id ≡ c
    → any (λ y. y.id == id) zs ≡ true
find_of_complete c none zs id z h r k = absurd (ground (arith, r))
find_of_complete c (some t) zs id z h r k =
    let i : nat_eq id 1 ≡ true = ground (arith, r) in
    let whole : some (zone_of t) ≡ some z = ground (arith, r, i) in
    let c' = (nat_eq_iff t.cluster c).1 (ap (λ x. x.cluster_id) (some-injective whole) ∙ k) in
    let l : some (zone_of t ∷ []) ≡ some zs = ground (arith, h, c') in
    subst (λ ys. any (λ y. y.id == id) ys ≡ true) (some-injective l)
      (ground (arith, i, nat_eq_iff 1 id, nat_eq_iff id 1))

pub save_in-new :
    (z y : Zone) (s t : Table)
    → z.id ≡ 0
    → save_in z s ≡ some (y, t)
    → (row_at y.id s ≡ none)
      × (y ≡ record z { id = y.id })
      × ((id : ℕ) → row_at id t ≡ (if id == y.id then some y else row_at id s))
save_in-new z y none t fresh h =
    let e : nat_eq z.id 0 ≡ true = (nat_eq_iff z.id 0).1 fresh in
    let w : Zone = record z { id = 1 } in
    let whole : some (w, some (slot_of z)) ≡ some (y, t) = sym (rw e refl) ∙ h in
    let pair = some-injective whole in
    subst
      (λ p.
        (row_at p.0.id none ≡ none)
        × (p.0 ≡ record z { id = p.0.id })
        × ((id : ℕ) → row_at id p.1 ≡ (if id == p.0.id then some p.0 else row_at id none)))
      pair (refl, refl, λ id. refl)
save_in-new z y (some u) t fresh h =
    let e : nat_eq z.id 1 ≡ false = ground (arith, fresh, nat_eq_iff z.id 1) in
    absurd (ground (arith, h, e))

replaced :
    (z : Zone) (u : Slot) (id : ℕ)
    → row_at id (some (slot_of z))
      ≡ (if id == 1 then some (record z { id = 1 }) else row_at id (some u))
replaced z u id = elim (Bool-cases (nat_eq id 1)) [ inl e ↦ rw e refl | inr e ↦ rw e refl ]

pub save_in-old :
    (z y : Zone) (s t : Table)
    → z.id ≢ 0
    → save_in z s ≡ some (y, t)
    → (y ≡ z) × ((id : ℕ) → row_at id t ≡ (if id == z.id then some z else row_at id s))
save_in-old z y none t not_zero h =
    let e : nat_eq z.id 0 ≡ false = ground (arith, not_zero, nat_eq_iff z.id 0) in
    absurd (ground (arith, h, e))
save_in-old z y (some u) t not_zero h = elim (Bool-cases (nat_eq z.id 1)) [
  | inl e ↦
      let whole : some (z, some (slot_of z)) ≡ some (y, t) = sym (rw e refl) ∙ h in
      let one : z ≡ record z { id = 1 } = ap (λ i. record z { id = i }) ((nat_eq_iff z.id 1).0 e) in
      subst
        (λ p.
          (p.0 ≡ z)
          × ((id : ℕ) → row_at id p.1 ≡ (if id == z.id then some z else row_at id (some u))))
        (some-injective whole)
        (
          refl,
          λ id.
              subst
                (λ x.
                  row_at id (some (slot_of z))
                  ≡ (if id == x.id then some x else row_at id (some u)))
                (sym one) (replaced z u id),
        )
  | inr e ↦ absurd (ground (arith, h, e))
]

pub delete_from-row :
    (z : Zone) (s t : Table)
    → delete_from z s ≡ some t
    → (id : ℕ) → row_at id t ≡ (if id == z.id then none else row_at id s)
delete_from-row z none t h id = elim (Bool-cases (nat_eq z.id 1)) [
  | inl e ↦
      let whole : some none ≡ some t = sym (rw e refl) ∙ h in
      subst (λ r. row_at id r ≡ (if id == z.id then none else none)) (some-injective whole)
        (ground arith)
  | inr e ↦
      let whole : some none ≡ some t = sym (rw e refl) ∙ h in
      subst (λ r. row_at id r ≡ (if id == z.id then none else none)) (some-injective whole)
        (ground arith)
]
delete_from-row z (some u) t h id = elim (Bool-cases (nat_eq z.id 1)) [
  | inl e ↦
      let whole : some none ≡ some t = sym (rw e refl) ∙ h in
      subst (λ r. row_at id r ≡ (if id == z.id then none else row_at id (some u)))
        (some-injective whole) (ground (arith, (nat_eq_iff z.id 1).0 e))
  | inr e ↦
      let whole : some (some u) ≡ some t = sym (rw e refl) ∙ h in
      subst (λ r. row_at id r ≡ (if id == z.id then none else row_at id (some u)))
        (some-injective whole) (ground (arith, e))
]

pub row_at-zero : (s : Table) → row_at 0 s ≡ none
row_at-zero none = refl
row_at-zero (some t) = refl

pub row_at-one : (id : ℕ) (s : Table) (z : Zone) → row_at id s ≡ some z → id ≡ 1
row_at-one id none z h = absurd (ground (arith, h))
row_at-one id (some t) z h = ground (arith, h)

abbrev pub table_laws : Lawful table
table_laws = record {
  row = row_at;
  row-id = row_at-id;
  first-found = λ c n s z c0 n0. first_of-found c n s z;
  first-not_found = λ c n s id z c0 n0. first_of-not_found c n s id z;
  find-sound = λ c s zs c0. find_of_sound c s zs;
  find-complete = find_of_complete;
  save-new = save_in-new;
  save-old = save_in-old;
  delete-row = delete_from-row;
  zero-free = row_at-zero;
  delete_instance-row = λ i id s. refl;
  delete_hypervisor-row = λ h id s. refl;
}
