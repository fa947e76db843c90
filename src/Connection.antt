-- ===== src/Connection.antt =====
-- `CheckValidClusterConnectionInfo` of cluster-manager/internal/cluster/validator.go, and what the
-- validators share: the tests of other packages, which are parameters, and early returns. A nil
-- message is the one whose getters give zero values, unless the code asks whether it is nil.
use cdm_center.Prelude.{
  ℕ, String, Bool, true, false, not, Option, none, some, List, [], ◌∷◌, ◌≡◌, ◌↔◌, ◌≤◌, suc, arith,
  refl, ◌==◌, if◌then◌else◌, ltb, String-Eq,
}
use cdm_center.Prelude.Lists.{All}
use cdm_center.Errors.{Error, Param}
use cdm_center.Constant.{cluster_type_openstack}

-- `uuid.Parse`, `govalidator.IsCIDR` and `IsURL`, `utf8.RuneCountInString`, `len` of a string, and
-- the validator of the credential of a type
pub record Formats : Type 0 where
  pub is_uuid : String → Bool
  pub is_cidr : String → Bool
  pub is_url : String → Bool
  pub rune_count : String → ℕ
  pub byte_length : String → ℕ
  pub credential_error : String → Option Error

-- Checks one behind the other, of which the first error is returned.
unfoldable pub first_error : List (Option Error) → Option Error
first_error [] = none
first_error (none ∷ cs) = first_error cs
first_error (some e ∷ cs) = some e

-- `if b { return e }`
unfoldable pub refuse : Bool → Error → Option Error
refuse true e = some e
refuse false e = none

pub refuse-none_iff : (b : Bool) (e : Error) → (refuse b e ≡ none) ↔ (b ≡ false)
unfolding refuse
refuse-none_iff true e = (λ h. cc, λ h. cc)
refuse-none_iff false e = (λ h. refl, λ h. refl)

pub first_error-none_iff :
    (cs : List (Option Error)) → (first_error cs ≡ none) ↔ All (λ c. c ≡ none) cs
unfolding first_error
first_error-none_iff [] = (λ h. tt, λ h. refl)
first_error-none_iff (none ∷ cs) =
    let ih = first_error-none_iff cs in (λ h. (refl, ih.0 h), λ h. ih.1 h.1)
first_error-none_iff (some e ∷ cs) = (λ h. cc, λ h. cc h.0)

pub record ConnectionInfo : Type 0 where
  pub type_code : String
  pub api_server_url : String
  pub credential : String
  pub tenant_id : String

-- a uuid that is given and has the form of one
unfoldable pub check_uuid : Formats → Param → String → Option Error
unfolding refuse first_error
check_uuid f p u = first_error (
    refuse (u == "") (Error.required_parameter p)
    ∷ refuse (not (f.is_uuid u)) (Error.format_mismatch_parameter_value p u "UUID")
    ∷ [])

-- a uuid that may be left out
unfoldable pub check_optional_uuid : Formats → Param → String → Option Error
unfolding refuse
check_optional_uuid f p u =
    if u == ""
    then none
    else refuse (not (f.is_uuid u)) (Error.format_mismatch_parameter_value p u "UUID")

-- the case of OpenStack
unfoldable pub check_openstack : Formats → ConnectionInfo → Option Error
unfolding refuse first_error check_optional_uuid
check_openstack f conn =
    let url = Param.plain "cluster.api_server_url" in
    let credential = Param.plain "cluster.credential" in
    first_error (
      refuse (conn.api_server_url == "") (Error.required_parameter url)
      ∷ refuse (ltb 300 (f.byte_length conn.api_server_url))
          (Error.length_overflow_parameter_value url 300)
      ∷ refuse (not (f.is_url conn.api_server_url))
          (Error.format_mismatch_parameter_value url conn.api_server_url "URL")
      ∷ refuse (conn.credential == "") (Error.required_parameter credential)
      ∷ refuse (ltb 1024 (f.byte_length conn.credential))
          (Error.length_overflow_parameter_value credential 1024)
      ∷ f.credential_error conn.credential
      ∷ check_optional_uuid f (Param.plain "cluster.tenant.uuid") conn.tenant_id
      ∷ [])

unfoldable pub check_valid_cluster_connection_info : Formats → ConnectionInfo → Option Error
unfolding refuse first_error check_openstack
check_valid_cluster_connection_info f conn =
    if conn.type_code == ""
    then some (Error.required_parameter (Param.plain "cluster.type_code"))
    else (if conn.type_code == cluster_type_openstack
        then check_openstack f conn
        else some (Error.unsupported_cluster_type conn.type_code))

abbrev pub required : String → Error
required name = Error.required_parameter (Param.plain name)

abbrev pub too_long : Formats → String → String → Option Error
too_long f name text =
    refuse (ltb 255 (f.rune_count text))
      (Error.length_overflow_parameter_value (Param.plain name) 255)

-- the uuid of the tenant, if there is a tenant
unfoldable pub check_tenant : Formats → Option String → Option Error
unfolding check_uuid
check_tenant f none = some (required "tenant")
check_tenant f (some u) = check_uuid f (Param.plain "tenant.uuid") u

-- `for i, x := range xs`, from the index that is given
unfoldable pub check_each {ℓ} : {A : Type ℓ} → (ℕ → A → Option Error) → ℕ → List A → Option Error
unfolding first_error
check_each check i [] = none
check_each check i (x ∷ xs) =
    let rest = check_each check (suc i) xs in first_error (check i x ∷ rest ∷ [])

pub check_each-All :
    {A : Type 0} (P : A → Type 0) (check : ℕ → A → Option Error)
    → ((i : ℕ) (x : A) → (check i x ≡ none) ↔ P x)
    → (i : ℕ) (xs : List A) → (check_each check i xs ≡ none) ↔ All P xs
unfolding check_each
check_each-All P check each i [] = (λ h. tt, λ h. refl)
check_each-All P check each i (x ∷ xs) =
    let ih = check_each-All P check each (suc i) xs in
    let both = first_error-none_iff (check i x ∷ check_each check (suc i) xs ∷ []) in
    (
      (λ h. let c = both.0 h in ((each i x).0 c.0, ih.0 c.1.0)),
      (λ h. both.1 ((each i x).1 h.0, (ih.1 h.1, tt))),
    )

-- `if utf8.RuneCountInString(s) > 255`
pub length-none_iff : (n : ℕ) (e : Error) → (refuse (ltb 255 n) e ≡ none) ↔ (n ≤ 255)
unfolding refuse
length-none_iff n e = (λ h. ground (arith, h), λ h. ground (arith, h))
