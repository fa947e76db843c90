-- ===== src/Network/Tests.antt =====
-- A subnet with a pool and a name server.
use cdm_center.Prelude.{String, Bool, true, none, some, [], ◌∷◌, ◌==◌, ◌≡◌, ◌↔◌, String-Eq}
use cdm_center.Connection.{Formats}
use cdm_center.Network.{Subnet, check_subnet}
use cdm_center.Network.SubnetValid.{IsSubnet, check_subnet-IsSubnet}

abbrev formats : Formats
formats = record {
  is_uuid = λ s. s == "u1";
  is_cidr = λ s. s == "10.0.0.0/8";
  is_url = λ s. true;
  rune_count = λ s. 5;
  byte_length = λ s. 5;
  credential_error = λ s. none;
}

abbrev is_ip : String → Bool
is_ip s = s == "10.0.0.1"

abbrev subnet : Subnet
subnet = record {
  uuid = "";
  name = "north";
  description = "";
  network_cidr = "10.0.0.0/8";
  dhcp_pools = record { start_ip_address = "10.0.0.1"; end_ip_address = "10.0.0.1" } ∷ [];
  nameservers = "10.0.0.1" ∷ [];
}

check_subnet-IsSubnet_example :
    (check_subnet formats is_ip (some subnet) ≡ none) ↔ IsSubnet formats is_ip subnet
check_subnet-IsSubnet_example = check_subnet-IsSubnet formats is_ip subnet
