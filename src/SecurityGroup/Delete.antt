-- ===== src/SecurityGroup/Delete.antt =====
-- Which rule `validateDeleteSecurityGroup`
-- (cluster-manager/internal/security_group/validator.go) reports.
use cdm_center.Prelude.{
  ℕ, suc, ◌+◌, Bool, true, false, not, ◌&&◌, Option, none, some, List, [], ◌∷◌, ◌++◌, ◌≡◌, refl,
  ◌∙◌, ◌==◌, if◌then◌else◌, arith, String-Eq, ap,
}
use native.Mathlib.Nat.{zero-add}
use cdm_center.Prelude.Lists.{all, length}
use cdm_center.Errors.{Error, Param}
use cdm_center.Connection.{Formats, first_error, refuse, check_uuid}
use cdm_center.SecurityGroup.{Rule, check_rules}

-- a uuid that is given and has the form of one
abbrev pub has_uuid : Formats → Rule → Bool
has_uuid f r = not (r.uuid == "") && f.is_uuid r.uuid

abbrev pub rule_param : ℕ → Param
rule_param i = Param.indexed "security_group.rules" i "uuid"

-- the error for a rule without a uuid, or with something else
abbrev pub rule_error : ℕ → Rule → Error
rule_error i r =
    if r.uuid == ""
    then Error.required_parameter (rule_param i)
    else Error.format_mismatch_parameter_value (rule_param i) r.uuid "UUID"

check_uuid-good :
    (f : Formats) (p : Param) (r : Rule) → has_uuid f r ≡ true → check_uuid f p r.uuid ≡ none
unfolding check_uuid first_error refuse
check_uuid-good f p r h = ground (arith, h)

check_uuid-bad :
    (f : Formats) (i : ℕ) (r : Rule)
    → has_uuid f r ≡ false
    → check_uuid f (rule_param i) r.uuid ≡ some (rule_error i r)
unfolding check_uuid first_error refuse
check_uuid-bad f i r h = ground (arith, h)

check_rules-bad :
    (f : Formats) (i : ℕ) (r : Rule) (rs : List Rule)
    → has_uuid f r ≡ false
    → check_rules f i (r ∷ rs) ≡ some (rule_error i r)
unfolding check_rules first_error
check_rules-bad f i r rs h = rw (check_uuid-bad f i r h) refl

check_rules-good :
    (f : Formats) (i : ℕ) (r : Rule) (rs : List Rule)
    → has_uuid f r ≡ true
    → check_rules f i (r ∷ rs) ≡ check_rules f (suc i) rs
unfolding check_rules first_error
check_rules-good f i r rs h =
    rw (check_uuid-good f (rule_param i) r h) (one (check_rules f (suc i) rs))
  where
    one : (c : Option Error) → first_error (c ∷ []) ≡ c
    one none = refl
    one (some e) = refl

check_rules-from :
    (f : Formats) (i : ℕ) (before : List Rule) (bad : Rule) (behind : List Rule)
    → all (has_uuid f) before ≡ true
    → has_uuid f bad ≡ false
    → check_rules f i (before ++ bad ∷ behind) ≡ some (rule_error (i + length before) bad)
check_rules-from f i [] bad behind h b =
    check_rules-bad f i bad behind b ∙ ap (λ n. some (rule_error n bad)) (ground arith)
check_rules-from f i (r ∷ before) bad behind h b =
    check_rules-good f i r (before ++ bad ∷ behind) (ground (arith, h))
    ∙ check_rules-from f (suc i) before bad behind (ground (arith, h)) b
    ∙ ap (λ n. some (rule_error n bad)) (ground arith)

-- Of the rules of a group that is deleted, the first whose uuid is missing or has not the form of
-- one is reported, under its index: as required if it is missing, and else as a mismatch.
pub check_rules-first :
    (f : Formats) (before : List Rule) (bad : Rule) (behind : List Rule)
    → all (has_uuid f) before ≡ true
    → has_uuid f bad ≡ false
    → check_rules f 0 (before ++ bad ∷ behind) ≡ some (rule_error (length before) bad)
check_rules-first f before bad behind h b =
    check_rules-from f 0 before bad behind h b
    ∙ ap (λ n. some (rule_error n bad)) (zero-add (length before))
