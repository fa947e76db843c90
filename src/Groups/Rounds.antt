-- ===== src/Groups/Rounds.antt =====
-- The loop of `UpdateVolumeGroup` of cluster-manager/client/openstack/openstack.go against one that
-- takes parts off two lists, and its end.
use cdm_center.Prelude.{
  ℕ, zero, suc, ◌+◌, ◌*◌, ◌<◌, String, ◌||◌, Option, none, some, List, [], ◌∷◌, ◌≡◌, refl, ap, ◌⊎◌,
  arith, inl, inr, String-Eq,
}
use mathlib.Core.Path.{fun_ext}
use cdm_center.Prelude.Lists.{length, take, drop, All}
use cdm_center.Errors.{Error}
use cdm_center.Groups.{
  UpdateRequest, Train, Outcome, is_contain_uuid, list_of, continue_with, update_wrapper,
  update_part, update_parts,
}
use cdm_center.Groups.Parts.{chunk, get_part_volumes-chunk, drop-drop, length-drop}

pub contains-take-drop :
    (n : ℕ) (v : String) (xs : List String)
    → is_contain_uuid v xs ≡ (is_contain_uuid v (take n xs) || is_contain_uuid v (drop n xs))
unfolding is_contain_uuid
contains-take-drop zero v xs = refl
contains-take-drop (suc n) v [] = refl
contains-take-drop (suc n) v (x ∷ xs) = ground (arith, contains-take-drop n v xs)

module _ (P : String → Type 0) where
  pub All-take : (n : ℕ) (xs : List String) → All P xs → All P (take n xs)
  All-take zero xs h = tt
  All-take (suc n) [] h = tt
  All-take (suc n) (x ∷ xs) h = (h.0, All-take n xs h.1)

  pub All-drop : (n : ℕ) (xs : List String) → All P xs → All P (drop n xs)
  All-drop zero xs h = h
  All-drop (suc n) [] h = tt
  All-drop (suc n) (x ∷ xs) h = All-drop n xs h.1

module _ {S : Type 0} (train : Train S) where
  pub continue_with_inv :
      (o : S × Option Error) (next : S → Outcome train) {t : S}
      → continue_with train o next ≡ some (t, none)
      → (u : S) × (o ≡ (u, none)) × (next u ≡ some (t, none))
  unfolding continue_with
  continue_with_inv (u, none) next h = (u, refl, h)
  continue_with_inv (u, some e) next h = absurd (ground (arith, h))

  pub continue_with_total :
      (o : S × Option Error) (next : S → Outcome train)
      → ((u : S) → (r : S × Option Error) × (next u ≡ some r))
      → (r : S × Option Error) × (continue_with train o next ≡ some r)
  unfolding continue_with
  continue_with_total (u, none) next h = h u
  continue_with_total (u, some e) next h = ((u, some e), refl)

  module _ (req : UpdateRequest) where
    -- The loop over what is left of the two lists.
    unfoldable pub update_chunks : List String → List String → ℕ → S → Outcome train
    unfolding chunk
    update_chunks adds dels zero s = none
    update_chunks adds dels (suc fuel) s =
        update_part train req (chunk adds) (chunk dels) s
          (update_chunks (drop 6 adds) (drop 6 dels) fuel)

    -- From part i on, the loop of UpdateVolumeGroup does what a loop does that takes six volumes at a
    -- time off what is left of the two lists behind i parts.
    pub update_parts-chunks :
        (adds dels : List String) (fuel index : ℕ) (s : S)
        → update_parts train req adds dels fuel index s
          ≡ update_chunks (drop (index * 6) adds) (drop (index * 6) dels) fuel s
    unfolding update_parts update_chunks
    update_parts-chunks adds dels zero index s = refl
    update_parts-chunks adds dels (suc fuel) index s =
        let e : index * 6 + 6 ≡ suc index * 6 = omega arith in
        rw
          (
            get_part_volumes-chunk index adds,
            get_part_volumes-chunk index dels,
            drop-drop 6 (index * 6) adds,
            drop-drop 6 (index * 6) dels,
            e,
          )
          (ap
            (update_part train req (chunk (drop (index * 6) adds)) (chunk (drop (index * 6) dels))
              s)
            (fun_ext (update_parts-chunks adds dels fuel (suc index))))

    abbrev pub round : List String → List String → S → S × Option Error
    round adds dels s =
        train.update_group req.volume_group.uuid
          (update_wrapper train req (take 6 adds) (take 6 dels)) s

    pub update_part-chunk :
        (adds dels : List String) (s : S) (next : S → Outcome train)
        → ((adds ≡ [])
            × (dels ≡ [])
            × (update_part train req (chunk adds) (chunk dels) s next ≡ some (s, none)))
          ⊎ ((0 < length adds + length dels)
              × (update_part train req (chunk adds) (chunk dels) s next
                  ≡ continue_with train (round adds dels s) next))
    unfolding update_part chunk list_of
    update_part-chunk [] [] s next = inl (refl, refl, refl)
    update_part-chunk [] (d ∷ ds) s next = inr (omega arith, refl)
    update_part-chunk (a ∷ more) [] s next = inr (omega arith, refl)
    update_part-chunk (a ∷ more) (d ∷ ds) s next = inr (omega arith, refl)

    pub update_chunks_total :
        (adds dels : List String) (fuel : ℕ) (s : S)
        → length adds + length dels < fuel
        → (r : S × Option Error) × (update_chunks adds dels fuel s ≡ some r)
    unfolding update_chunks
    update_chunks_total adds dels zero s h = absurd (omega (arith, h))
    update_chunks_total adds dels (suc fuel) s h =
        elim (update_part-chunk adds dels s (update_chunks (drop 6 adds) (drop 6 dels) fuel)) [
          | inl e ↦ ((s, none), e.2)
          | inr e ↦ rw e.1 (
              continue_with_total (round adds dels s) _ λ u.
                update_chunks_total (drop 6 adds) (drop 6 dels) fuel u
                  (omega (arith, h, e.0, length-drop 6 adds, length-drop 6 dels)))
        ]
