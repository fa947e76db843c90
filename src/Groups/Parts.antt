-- ===== src/Groups/Parts.antt =====
-- `getPartVolumes` of cluster-manager/client/openstack/openstack.go cuts a list into parts: the bounds
-- of a part, and the parts as what is left of the list.
use cdm_center.Prelude.{
  ℕ, zero, suc, ◌+◌, ◌-◌, ◌*◌, ◌≤◌, ◌<◌, String, Option, none, some, List, [], ◌∷◌, ◌≡◌, ◌⊎◌, refl,
  sym, ap, ◌∙◌, arith, inl, inr, ℕ-Eq,
}
use cdm_center.Prelude.Lists.{length, take, drop}
use cdm_center.Groups.{part_bounds, slice_at, get_part_volumes}

-- If getPartVolumes returns a slice, the slice starts at the part's multiple of six, lies in the list
-- and holds one to six volumes.
pub part_bounds_within :
    (index n a b : ℕ)
    → part_bounds index n ≡ some (a, b)
    → (a < b) × (b ≤ n) × (b ≤ a + 6) × (a ≡ index * 6)
unfolding part_bounds
part_bounds_within index n a b h = ground arith

pub drop-nil : (n : ℕ) → drop {A = String} n [] ≡ []
drop-nil zero = refl
drop-nil (suc n) = refl

pub drop-drop : (m n : ℕ) (xs : List String) → drop m (drop n xs) ≡ drop (n + m) xs
drop-drop m zero xs = let e : m ≡ 0 + m = omega arith in ap (λ k. drop k xs) e
drop-drop m (suc n) [] = drop-nil m ∙ sym (drop-nil (suc n + m))
drop-drop m (suc n) (x ∷ xs) =
    let e : suc (n + m) ≡ suc n + m = omega arith in drop-drop m n xs ∙ ap (λ k. drop k (x ∷ xs)) e

pub length-drop : (n : ℕ) (xs : List String) → length (drop n xs) ≡ length xs - n
length-drop zero xs = omega arith
length-drop (suc n) [] = omega arith
length-drop (suc n) (x ∷ xs) = omega (arith, length-drop n xs)

take_all : (n : ℕ) (xs : List String) → length xs ≤ n → take n xs ≡ xs
take_all zero [] h = refl
take_all zero (x ∷ xs) h = absurd (omega (arith, h))
take_all (suc n) [] h = refl
take_all (suc n) (x ∷ xs) h = ap (λ ys. x ∷ ys) (take_all n xs (omega (arith, h)))

-- The next part of what is left.
unfoldable pub chunk : List String → Option (List String)
chunk [] = none
chunk (x ∷ xs) = some (take 6 (x ∷ xs))

chunk_nonempty : (xs : List String) → 0 < length xs → chunk xs ≡ some (take 6 xs)
unfolding chunk
chunk_nonempty [] h = absurd (omega (arith, h))
chunk_nonempty (x ∷ xs) h = refl

chunk_empty : (xs : List String) → length xs ≡ 0 → chunk xs ≡ none
unfolding chunk
chunk_empty [] h = refl
chunk_empty (x ∷ xs) h = absurd (omega (arith, h))

take_part :
    (k : ℕ) (xs : List String) → (k ≡ 6) ⊎ ((length xs ≡ k) × (k ≤ 6)) → take k xs ≡ take 6 xs
take_part k xs (inl e) = ap (λ n. take n xs) e
take_part k xs (inr (e, l)) =
    take_all k xs (omega (arith, e)) ∙ sym (take_all 6 xs (omega (arith, e, l)))

part_bounds_end :
    (index n a b : ℕ)
    → part_bounds index n ≡ some (a, b)
    → (b - a ≡ 6) ⊎ ((n - a ≡ b - a) × (b - a ≤ 6))
unfolding part_bounds
part_bounds_end index n a b h = ground arith

part_bounds-none : (index n : ℕ) → part_bounds index n ≡ none → n ≤ index * 6
unfolding part_bounds
part_bounds-none index n h = ground arith

slice_at-chunk :
    (index : ℕ) (vs : List String) (o : Option (ℕ × ℕ))
    → part_bounds index (length vs) ≡ o
    → slice_at vs o ≡ chunk (drop (index * 6) vs)
unfolding slice_at
slice_at-chunk index vs none e =
    let l = part_bounds-none index (length vs) e in
    sym (chunk_empty _ (omega (arith, length-drop (index * 6) vs, l)))
slice_at-chunk index vs (some (a, b)) e =
    let w = part_bounds_within index (length vs) a b e in
    let l : length (drop a vs) ≡ length vs - a = length-drop a vs in
    let part : take (b - a) (drop a vs) ≡ take 6 (drop a vs) =
      take_part (b - a) (drop a vs) (rw l (part_bounds_end index (length vs) a b e)) in
    ap some part
    ∙ sym (chunk_nonempty (drop a vs) (omega (arith, l, w)))
    ∙ ap (λ k. chunk (drop k vs)) w.3

-- Part i is the next one of what is left behind i parts.
pub get_part_volumes-chunk :
    (index : ℕ) (vs : List String) → get_part_volumes index vs ≡ chunk (drop (index * 6) vs)
unfolding get_part_volumes
get_part_volumes-chunk index vs = slice_at-chunk index vs _ refl
