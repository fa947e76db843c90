-- ===== src/Router/Tests.antt =====
-- A router with one route.
use cdm_center.Prelude.{true, false, none, [], ◌∷◌, ◌==◌, ◌≡◌, ◌↔◌, String-Eq}
use cdm_center.Connection.{Formats}
use cdm_center.Router.{Addresses, Router, check_router}
use cdm_center.Router.RouterValid.{IsRouter, check_router-IsRouter}

abbrev formats : Formats
formats = record {
  is_uuid = λ s. s == "u1";
  is_cidr = λ s. s == "10.0.0.0/8";
  is_url = λ s. true;
  rune_count = λ s. 5;
  byte_length = λ s. 5;
  credential_error = λ s. none;
}

abbrev addresses : Addresses
addresses = record {
  is_ip = λ s. s == "10.0.0.1";
  is_ipv4 = λ s. s == "10.0.0.1";
  is_ipv6 = λ s. false;
}

abbrev router : Router
router = record {
  uuid = "";
  name = "north";
  description = "";
  state = "up";
  extra_routes = record { destination = "10.0.0.0/8"; nexthop = "10.0.0.1" } ∷ [];
  external_routing_interfaces =
      record { network_uuid = "u1"; ip_address = ""; subnet_uuid = "u1" } ∷ [];
  internal_routing_interfaces = [];
}

check_router-IsRouter_example :
    (check_router formats addresses router ≡ none) ↔ IsRouter formats addresses router
check_router-IsRouter_example = check_router-IsRouter formats addresses router
