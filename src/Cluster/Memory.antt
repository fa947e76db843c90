-- ===== src/Cluster/Memory.antt =====
-- A store in memory, to run the code of cluster-manager/internal/cluster/cluster_util.go and of
-- cluster-manager/storage/storage.go on.
use cdm_center.Prelude.{
  String, Option, none, some, ◌≡◌, refl, sym, ◌∙◌, ap, String-Eq, arith, eq_refl,
}
use cdm_center.Prelude.Dict.{Dict, lookup, insert, delete, lookup-insert, lookup-delete}
use cdm_center.Cluster.Store.{Answer, Store, Lawful}

abbrev pub answer : Option String → Answer
answer none = Answer.not_found_key
answer (some v) = Answer.found v

-- a map in memory, in which no key is a prefix of another
abbrev pub memory : Store (Dict String String)
memory = record {
  get = λ k s. answer (lookup k s);
  put = λ k v s. some (insert k v s);
  delete = λ k s. some (delete k s);
  delete_prefix = λ k s. some (delete k s);
}

pub some-injective {ℓ} : {A : Type ℓ} (a b : A) → some a ≡ some b → a ≡ b
some-injective a b h = cc

pub memory-Lawful : Lawful memory
memory-Lawful = record {
  get-put = λ k j v s t h.
      ap (λ m. answer (lookup j m)) (some-injective t (insert k v s) (sym h))
      ∙ (rw (lookup-insert k j v s) (ground arith));
  get-delete_prefix = λ k s t h.
      ap (λ m. answer (lookup k m)) (some-injective t (delete k s) (sym h))
      ∙ (rw (lookup-delete k k s, eq_refl k) refl);
}
