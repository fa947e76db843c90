-- ===== src/ErrorCodes/Codes.antt =====
-- The codes of cluster-manager/handler/util.go tell the declared errors apart.
use cdm_center.Prelude.{
  String, Option, none, some, List, [], ◌∷◌, ◌==◌, ◌≡◌, refl, sym, ap, ◌∙◌, if◌then◌else◌,
  String-Eq,
}
use cdm_center.ErrorCodes.{Declared, error_code, switch}

-- the error that a code names
unfoldable named : String → List Declared → Option Declared
named c [] = none
named c (d ∷ ds) = let rest = named c ds in if error_code d == c then some d else rest

named-error_code : (d : Declared) → named (error_code d) switch ≡ some d
unfolding named
named-error_code Declared.not_found_volume_type = refl
named-error_code _ = refl

-- Two declared errors with the same code are the same.
pub error_code-injective : (d e : Declared) → error_code d ≡ error_code e → d ≡ e
error_code-injective d e h =
    let same : some d ≡ some e =
      sym (named-error_code d) ∙ (ap (λ c. named c switch) h ∙ named-error_code e) in
    ap (λ o. elim o [ none ↦ d | some x ↦ x ]) same
