-- ===== src/SecurityGroup/Tests.antt =====
-- Concrete requests for security groups.
use cdm_center.Prelude.{String, true, ◌||◌, none, some, [], ◌∷◌, ◌≡◌, ◌↔◌, refl, ◌==◌, String-Eq}
use cdm_center.Constant.{cluster_type_openstack}
use cdm_center.Connection.{
  check_tenant, Formats, first_error, refuse, check_uuid, check_optional_uuid, check_openstack,
  check_valid_cluster_connection_info,
}
use cdm_center.SecurityGroup.{
  Rule, Group, Request, check_group_uuid, check_rule, check_remote, check_direction, check_ports,
  check_protocol, is_matched, validate_create_security_group_rule,
}
use cdm_center.SecurityGroup.RuleValid.{IsValid, check_rule-IsValid}
use cdm_center.SecurityGroup.Accepts.{validate_create_security_group_rule-accepts}

-- "u1" and "u2" are the uuids, and every text is short.
abbrev formats : Formats
formats = record {
  is_uuid = λ s. s == "u1" || s == "u2";
  is_cidr = λ s. s == "10.0.0.0/8";
  is_url = λ s. s == "http://c";
  rune_count = λ s. 1;
  byte_length = λ s. 1;
  credential_error = λ s. none;
}

abbrev https : Rule
https = record {
  uuid = "u1";
  description = "";
  remote_security_group_uuid = "";
  network_cidr = "10.0.0.0/8";
  ether_type = 4;
  direction = "ingress";
  port_range_max = 443;
  port_range_min = 443;
  protocol = "tcp";
}

abbrev group : Group
group = record { uuid = "u2"; name = "web"; description = ""; rules = https ∷ [] }

abbrev request : Request
request = record {
  conn = record {
    type_code = cluster_type_openstack;
    api_server_url = "http://c";
    credential = "c";
    tenant_id = "";
  };
  tenant = some "u1";
  security_group = some group;
  security_group_rule = some https;
}

lets-https : check_rule formats (some https) ≡ none
unfolding check_rule first_error refuse check_remote check_direction check_ports check_protocol
    check_optional_uuid is_matched
lets-https = refl

check_rule-IsValid_example : (check_rule formats (some https) ≡ none) ↔ IsValid formats https
check_rule-IsValid_example = check_rule-IsValid formats https

lets-request : validate_create_security_group_rule formats request ≡ none
unfolding validate_create_security_group_rule check_valid_cluster_connection_info check_openstack
    check_tenant check_group_uuid check_uuid check_optional_uuid check_rule first_error refuse
    check_remote check_direction check_ports check_protocol is_matched
lets-request = refl

validate_create_security_group_rule-accepts_example :
    (request.conn.type_code ≡ cluster_type_openstack)
    × ((u : String) × ((request.tenant ≡ some u) × (formats.is_uuid u ≡ true)))
    × ((g : Group) × ((request.security_group ≡ some g) × (formats.is_uuid g.uuid ≡ true)))
    × ((r : Rule) × ((request.security_group_rule ≡ some r) × IsValid formats r))
validate_create_security_group_rule-accepts_example =
    validate_create_security_group_rule-accepts formats request lets-request

abbrev nameless : Rule
nameless = record https { uuid = "" }
