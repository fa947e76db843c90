-- ===== src/SecurityGroup.antt =====
-- The validators of cluster-manager/internal/security_group/validator.go. The group's requests for
-- reading end in `IsClusterOwner`, whose answer is an argument.
mod Tests
pub mod RuleValid
pub mod Accepts
pub mod Delete
use cdm_center.Prelude.{
  ℕ, suc, String, Bool, true, false, not, ◌&&◌, ◌||◌, Option, none, some, List, [], ◌∷◌, ◌==◌,
  if◌then◌else◌, ltb, String-Eq, ℕ-Eq,
}
use cdm_center.Prelude.Lists.{any}
use cdm_center.Errors.{Error, Param}
use cdm_center.Connection.{
  required, too_long, check_tenant, Formats, first_error, refuse, ConnectionInfo, check_uuid,
  check_optional_uuid, check_valid_cluster_connection_info,
}

unfoldable pub validate_get_security_group : Option Error → ℕ → ℕ → Option Error
unfolding first_error refuse
validate_get_security_group owner cluster_id group_id = first_error (
    refuse (cluster_id == 0) (required "cluster_id")
    ∷ refuse (group_id == 0) (required "cluster_security_group_id")
    ∷ owner
    ∷ [])

unfoldable pub validate_get_security_group_by_uuid : Option Error → ℕ → String → Option Error
unfolding first_error refuse
validate_get_security_group_by_uuid owner cluster_id uuid = first_error (
    refuse (cluster_id == 0) (required "cluster_id")
    ∷ refuse (uuid == "") (required "uuid")
    ∷ owner
    ∷ [])

unfoldable pub validate_get_security_group_list : Option Error → ℕ → Option Error
unfolding first_error refuse
validate_get_security_group_list owner cluster_id =
    first_error (refuse (cluster_id == 0) (required "cluster_id") ∷ owner ∷ [])

-- The parameter that is named for a missing cluster is the source's.
unfoldable pub validate_check_is_exist_security_group : Option Error → ℕ → String → Option Error
unfolding first_error refuse
validate_check_is_exist_security_group owner cluster_id name = first_error (
    refuse (cluster_id == 0) (required "tenant_id")
    ∷ refuse (name == "") (required "name")
    ∷ owner
    ∷ [])

pub record Rule : Type 0 where
  pub uuid : String
  pub description : String
  pub remote_security_group_uuid : String
  pub network_cidr : String
  pub ether_type : ℕ
  pub direction : String
  pub port_range_max : ℕ
  pub port_range_min : ℕ
  pub protocol : String

pub record Group : Type 0 where
  pub uuid : String
  pub name : String
  pub description : String
  pub rules : List Rule

-- `tenant` is the uuid of the tenant, if there is one.
pub record Request : Type 0 where
  pub conn : ConnectionInfo
  pub tenant : Option String
  pub security_group : Option Group
  pub security_group_rule : Option Rule

unfoldable pub check_named_group : Formats → Option Group → Option Error
unfolding first_error refuse
check_named_group f none = some (required "security_group")
check_named_group f (some g) = first_error (
    refuse (g.name == "") (required "security_group.name")
    ∷ too_long f "security_group.name" g.name
    ∷ too_long f "security_group.description" g.description
    ∷ [])

unfoldable pub validate_create_security_group : Formats → Request → Option Error
unfolding first_error check_valid_cluster_connection_info check_tenant check_named_group
validate_create_security_group f req = first_error (
    check_valid_cluster_connection_info f req.conn
    ∷ check_tenant f req.tenant
    ∷ check_named_group f req.security_group
    ∷ [])

unfoldable pub check_group_uuid : Formats → Option Group → Option Error
unfolding check_uuid
check_group_uuid f none = some (required "security_group")
check_group_uuid f (some g) = check_uuid f (Param.plain "security_group.uuid") g.uuid

abbrev param : String → Param
param name = Param.plain name

-- not both a remote group and a network, and each in its form; between the two comes the ether type
unfoldable pub check_remote : Formats → Rule → Option Error
unfolding first_error refuse check_optional_uuid
check_remote f r =
    let cidr = param "security_group_rule.network_cidr" in
    first_error (
      refuse (not (r.remote_security_group_uuid == "") && not (r.network_cidr == ""))
        (Error.invalid_parameter_value cidr r.network_cidr)
      ∷ check_optional_uuid f (param "security_group_rule.remote_security_group.uuid")
          r.remote_security_group_uuid
      ∷ refuse (not (r.ether_type == 4) && not (r.ether_type == 6))
          (Error.unavailable_parameter_number (param "security_group_rule.ether_type") r.ether_type)
      ∷ refuse (not (r.network_cidr == "") && not (f.is_cidr r.network_cidr))
          (Error.format_mismatch_parameter_value cidr r.network_cidr "CIDR")
      ∷ [])

abbrev in_range : ℕ → Bool
in_range n = ltb 0 n && ltb n 65536

-- The value that is reported for the order of the two is the source's, the larger one's name.
unfoldable pub check_ports : ℕ → ℕ → Option Error
unfolding first_error refuse
check_ports port_max port_min =
    let low = param "security_group_rule.port_range_min" in
    let high = param "security_group_rule.port_range_max" in
    if port_max == 0 && port_min == 0
    then none
    else first_error (
        refuse (not (in_range port_max)) (Error.out_of_range_parameter_value high 1 65535)
        ∷ refuse (not (in_range port_min)) (Error.out_of_range_parameter_value low 1 65535)
        ∷ refuse (ltb port_max port_min) (Error.invalid_parameter_number low port_max)
        ∷ [])

abbrev pub protocols : List String
protocols =
    "any" ∷ "ah" ∷ "dccp" ∷ "egp" ∷ "esp" ∷ "gre" ∷ "icmp" ∷ "icmpv6" ∷ "igmp" ∷ "ipip"
    ∷ "ipv6-encap" ∷ "ipv6-frag" ∷ "ipv6-icmp" ∷ "ipv6-nonxt" ∷ "ipv6-opts" ∷ "ipv6-route" ∷ "ospf"
    ∷ "pgm" ∷ "rsvp" ∷ "sctp" ∷ "tcp" ∷ "udp" ∷ "udplite" ∷ "vrrp" ∷ []

-- the loop over the protocols
unfoldable pub is_matched : String → List String → Bool → Bool
is_matched p [] matched = matched
is_matched p (q ∷ qs) matched = is_matched p qs (matched || p == q)

unfoldable pub check_protocol : String → Option Error
unfolding is_matched refuse
check_protocol p =
    refuse (not (is_matched p protocols false) && not (p == ""))
      (Error.unavailable_parameter_value (param "security_group_rule.protocol") p)

unfoldable pub check_direction : String → Option Error
unfolding refuse
check_direction d =
    refuse (not (d == "ingress") && not (d == "egress"))
      (Error.unavailable_parameter_value (param "security_group_rule.direction") d)

unfoldable pub check_rule : Formats → Option Rule → Option Error
unfolding first_error check_remote check_direction check_ports check_protocol
check_rule f none = some (required "security_group_rule")
check_rule f (some r) = first_error (
    too_long f "security_group_rule.description" r.description
    ∷ check_remote f r
    ∷ check_direction r.direction
    ∷ check_ports r.port_range_max r.port_range_min
    ∷ check_protocol r.protocol
    ∷ [])

unfoldable pub validate_create_security_group_rule : Formats → Request → Option Error
unfolding first_error check_valid_cluster_connection_info check_tenant check_group_uuid check_rule
validate_create_security_group_rule f req = first_error (
    check_valid_cluster_connection_info f req.conn
    ∷ check_tenant f req.tenant
    ∷ check_group_uuid f req.security_group
    ∷ check_rule f req.security_group_rule
    ∷ [])

-- the loop over the rules, with the index of the first
unfoldable pub check_rules : Formats → ℕ → List Rule → Option Error
unfolding check_uuid
check_rules f i [] = none
check_rules f i (r ∷ rs) =
    let rest = check_rules f (suc i) rs in
    first_error (check_uuid f (Param.indexed "security_group.rules" i "uuid") r.uuid ∷ rest ∷ [])

abbrev rules_of : Option Group → List Rule
rules_of none = []
rules_of (some g) = g.rules

unfoldable pub validate_delete_security_group : Formats → Request → Option Error
unfolding first_error check_valid_cluster_connection_info check_tenant check_group_uuid check_rules
validate_delete_security_group f req = first_error (
    check_valid_cluster_connection_info f req.conn
    ∷ check_tenant f req.tenant
    ∷ check_group_uuid f req.security_group
    ∷ check_rules f 0 (rules_of req.security_group)
    ∷ [])
