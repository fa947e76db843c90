-- ===== src/Cluster/Store.antt =====
-- What cluster-manager/internal/cluster/cluster_util.go uses of the store, of `encoding/json` and of
-- `fmt.Sprintf`: a parameter of the code there, with what the code relies on.
use cdm_center.Prelude.{String, Option, some, ◌≡◌, ◌==◌, if◌then◌else◌, String-Eq}

pub data Answer : Type 0 where
  found : String → Answer
  -- `store.ErrNotFoundKey`
  not_found_key : Answer
  -- any other error
  unusable : Answer

-- `put` and the two ways to delete bring the new store back, or an error.
pub record Store (S : Type 0) : Type 0 where
  pub get : String → S → Answer
  pub put : String → String → S → Option S
  pub delete : String → S → Option S
  pub delete_prefix : String → S → Option S

-- A write is read back and touches no other key; what is deleted by a prefix is gone, its key too.
pub record Lawful {S : Type 0} (st : Store S) : Type 0 where
  pub get-put :
      (k j v : String) (s t : S)
      → st.put k v s ≡ some t
      → st.get j t ≡ (if k == j then Answer.found v else st.get j s)
  pub get-delete_prefix :
      (k : String) (s t : S) → st.delete_prefix k s ≡ some t → st.get k t ≡ Answer.not_found_key

-- `json.Marshal` and `json.Unmarshal` for one type; `none` is an error
pub record Coding (A : Type 0) : Type 0 where
  pub marshal : A → Option String
  pub unmarshal : String → Option A

-- those of a struct, which is read back as it was
pub record Json (A : Type 0) : Type 0 where
  pub coding : Coding A
  pub round_trip : (a : A) (b : String) → coding.marshal a ≡ some b → coding.unmarshal b ≡ some a

-- a result, or the error
pub data Result {ℓ} (A : Type ℓ) (E : Type 0) : Type ℓ where
  ok : A → Result A E
  error : E → Result A E
