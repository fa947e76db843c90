-- ===== src/SecurityGroup/Accepts.antt =====
-- What a request holds that `validateCreateSecurityGroupRule`
-- (cluster-manager/internal/security_group/validator.go) lets through.
use cdm_center.Prelude.{
  String, true, Option, none, some, List, [], ◌∷◌, ◌≡◌, refl, arith, eq_iff, String-Eq,
}
use cdm_center.Errors.{Error, Param}
use cdm_center.Constant.{cluster_type_openstack}
use cdm_center.Connection.{
  Formats, first_error, first_error-none_iff, refuse, check_uuid, ConnectionInfo,
  check_valid_cluster_connection_info, check_tenant,
}
use cdm_center.SecurityGroup.{
  Rule, Group, Request, check_group_uuid, check_rule, validate_create_security_group_rule,
}
use cdm_center.SecurityGroup.RuleValid.{IsValid, check_rule-IsValid}

check_uuid-none :
    (f : Formats) (p : Param) (u : String) → check_uuid f p u ≡ none → f.is_uuid u ≡ true
unfolding check_uuid first_error refuse
check_uuid-none f p u h = ground (arith, h)

check_tenant-none :
    (f : Formats) (t : Option String)
    → check_tenant f t ≡ none
    → (u : String) × ((t ≡ some u) × (f.is_uuid u ≡ true))
unfolding check_tenant
check_tenant-none f none h = cc
check_tenant-none f (some u) h = (u, (refl, check_uuid-none f (Param.plain "tenant.uuid") u h))

check_group_uuid-none :
    (f : Formats) (o : Option Group)
    → check_group_uuid f o ≡ none
    → (g : Group) × ((o ≡ some g) × (f.is_uuid g.uuid ≡ true))
unfolding check_group_uuid
check_group_uuid-none f none h = cc
check_group_uuid-none f (some g) h =
    (g, (refl, check_uuid-none f (Param.plain "security_group.uuid") g.uuid h))

check_rule-none :
    (f : Formats) (o : Option Rule)
    → check_rule f o ≡ none
    → (r : Rule) × ((o ≡ some r) × IsValid f r)
check_rule-none f none h = unfold check_rule in cc
check_rule-none f (some r) h = (r, (refl, (check_rule-IsValid f r).0 h))

connection-none :
    (f : Formats) (conn : ConnectionInfo)
    → check_valid_cluster_connection_info f conn ≡ none
    → conn.type_code ≡ cluster_type_openstack
unfolding check_valid_cluster_connection_info
connection-none f conn h = ground (arith, h, eq_iff conn.type_code cluster_type_openstack)

-- A request that is let through is for a cluster of OpenStack, names a tenant and a security group
-- by uuids, and holds a rule that is valid.
pub validate_create_security_group_rule-accepts :
    (f : Formats) (req : Request)
    → validate_create_security_group_rule f req ≡ none
    → (req.conn.type_code ≡ cluster_type_openstack)
      × ((u : String) × ((req.tenant ≡ some u) × (f.is_uuid u ≡ true)))
      × ((g : Group) × ((req.security_group ≡ some g) × (f.is_uuid g.uuid ≡ true)))
      × ((r : Rule) × ((req.security_group_rule ≡ some r) × IsValid f r))
unfolding validate_create_security_group_rule
validate_create_security_group_rule-accepts f req h =
    let checks : List (Option Error) =
      check_valid_cluster_connection_info f req.conn
      ∷ check_tenant f req.tenant
      ∷ check_group_uuid f req.security_group
      ∷ check_rule f req.security_group_rule
      ∷ [] in
    let a = (first_error-none_iff checks).0 h in
    (
      connection-none f req.conn a.0,
      check_tenant-none f req.tenant a.1.0,
      check_group_uuid-none f req.security_group a.1.1.0,
      check_rule-none f req.security_group_rule a.1.1.1.0,
    )
