-- ===== src/SecurityGroup/RuleValid.antt =====
-- Which rules `validateCreateSecurityGroupRule`
-- (cluster-manager/internal/security_group/validator.go) lets through.
use cdm_center.Prelude.{
  ℕ, ◌≤◌, String, Bool, true, false, not, ◌&&◌, ◌||◌, Option, none, some, List, [], ◌∷◌, ◌≡◌, ◌↔◌,
  ◌⊎◌, inl, inr, sym, ◌∙◌, ◌==◌, arith, ltb, String-Eq, ℕ-Eq, eq_iff,
}
use cdm_center.Prelude.Lists.{any, All}
use cdm_center.Errors.{Error, Param}
use cdm_center.Connection.{
  Formats, first_error, refuse, first_error-none_iff, refuse-none_iff, check_optional_uuid,
}
use cdm_center.SecurityGroup.{
  Rule, check_remote, check_ports, protocols, is_matched, check_protocol, check_direction,
  check_rule,
}

-- neither bound is given, or both are ports in order
abbrev pub ArePorts : ℕ → ℕ → Type 0
ArePorts port_max port_min =
    ((port_max ≡ 0) × (port_min ≡ 0))
    ⊎ ((1 ≤ port_min) × (port_min ≤ port_max) × (port_max ≤ 65535))

check_ports-none_iff : (a b : ℕ) → (check_ports a b ≡ none) ↔ ArePorts a b
unfolding check_ports first_error refuse
check_ports-none_iff a b = (λ h. ground (arith, h), λ h. ground (arith, h))

is_matched-any :
    (p : String) (qs : List String) (m : Bool) → is_matched p qs m ≡ (m || any (λ q. p == q) qs)
unfolding is_matched
is_matched-any p [] m = ground arith
is_matched-any p (q ∷ qs) m = ground (arith, is_matched-any p qs (m || p == q))

check_direction-none_iff :
    (d : String) → (check_direction d ≡ none) ↔ ((d ≡ "ingress") ⊎ (d ≡ "egress"))
unfolding check_direction refuse
check_direction-none_iff d = (
  λ h. ground (arith, h, eq_iff d "ingress", eq_iff d "egress"),
  λ h. ground (arith, h, eq_iff d "ingress", eq_iff d "egress"),
)

neither-none_iff :
    (a b : Bool) (e : Error) → (refuse (not a && not b) e ≡ none) ↔ ((b ≡ true) ⊎ (a ≡ true))
unfolding refuse
neither-none_iff a b e = (λ h. ground (arith, h), λ h. ground (arith, h))

sum_iff : {A B C D : Type 0} → A ↔ C → B ↔ D → (A ⊎ B) ↔ (C ⊎ D)
sum_iff f g = (
  λ s. elim s [ inl a ↦ inl (f.0 a) | inr b ↦ inr (g.0 b) ],
  λ s. elim s [ inl c ↦ inl (f.1 c) | inr d ↦ inr (g.1 d) ],
)

check_protocol-none_iff :
    (p : String) → (check_protocol p ≡ none) ↔ ((p ≡ "") ⊎ (any (λ q. p == q) protocols ≡ true))
unfolding check_protocol
check_protocol-none_iff p =
    let e = is_matched-any p protocols false in
    let both =
      neither-none_iff (is_matched p protocols false) (p == "")
        (Error.unavailable_parameter_value (Param.plain "security_group_rule.protocol") p) in
    let parts = sum_iff (eq_iff p "") ((λ h. sym e ∙ h, λ h. e ∙ h)) in
    (λ h. parts.0 (both.0 h), λ h. both.1 (parts.1 h))

pub record IsRemote (f : Formats) (r : Rule) : Type 0 where
  pub one : (r.remote_security_group_uuid ≡ "") ⊎ (r.network_cidr ≡ "")
  pub uuid : (r.remote_security_group_uuid ≡ "") ⊎ (f.is_uuid r.remote_security_group_uuid ≡ true)
  pub ether_type : (r.ether_type ≡ 4) ⊎ (r.ether_type ≡ 6)
  pub cidr : (r.network_cidr ≡ "") ⊎ (f.is_cidr r.network_cidr ≡ true)

check_remote-IsRemote : (f : Formats) (r : Rule) → (check_remote f r ≡ none) ↔ IsRemote f r
unfolding check_remote first_error refuse check_optional_uuid
check_remote-IsRemote f r = (
  λ h. record {
    one = ground (arith, h, eq_iff r.remote_security_group_uuid "", eq_iff r.network_cidr "");
    uuid = ground (arith, h, eq_iff r.remote_security_group_uuid "");
    ether_type = ground (arith, h);
    cidr = ground (arith, h, eq_iff r.network_cidr "");
  },
  λ h. ground (
    arith,
    h.one,
    h.uuid,
    h.ether_type,
    h.cidr,
    eq_iff r.remote_security_group_uuid "",
    eq_iff r.network_cidr "",
  ),
)

-- the names of protocols that documents/api/schema.yaml lists
abbrev pub protocol_names : List String
protocol_names =
    "any" ∷ "ah" ∷ "dccp" ∷ "egp" ∷ "esp" ∷ "gre" ∷ "icmp" ∷ "icmpv6" ∷ "igmp" ∷ "ipip"
    ∷ "ipv6-encap" ∷ "ipv6-frag" ∷ "ipv6-icmp" ∷ "ipv6-nonxt" ∷ "ipv6-opts" ∷ "ipv6-route" ∷ "ospf"
    ∷ "pgm" ∷ "rsvp" ∷ "sctp" ∷ "tcp" ∷ "udp" ∷ "udplite" ∷ "vrrp" ∷ []

-- What the validator asks of a rule.
pub record IsValid (f : Formats) (r : Rule) : Type 0 where
  pub description : ltb 255 (f.rune_count r.description) ≡ false
  pub remote : IsRemote f r
  pub direction : (r.direction ≡ "ingress") ⊎ (r.direction ≡ "egress")
  pub ports : ArePorts r.port_range_max r.port_range_min
  pub protocol : (r.protocol ≡ "") ⊎ (any (λ q. r.protocol == q) protocol_names ≡ true)

abbrev rule_checks : Formats → Rule → List (Option Error)
rule_checks f r =
    refuse (ltb 255 (f.rune_count r.description))
      (Error.length_overflow_parameter_value (Param.plain "security_group_rule.description") 255)
    ∷ check_remote f r
    ∷ check_direction r.direction
    ∷ check_ports r.port_range_max r.port_range_min
    ∷ check_protocol r.protocol
    ∷ []

check_rule-checks :
    (f : Formats) (r : Rule)
    → (check_rule f (some r) ≡ none) ↔ All (λ c. c ≡ none) (rule_checks f r)
unfolding check_rule
check_rule-checks f r = first_error-none_iff (rule_checks f r)

-- A rule that is given is let through exactly if its description has at most 255 characters, it
-- names a remote group by a uuid or a network by a CIDR or neither, its ether type is 4 or 6, its
-- direction is ingress or egress, its ports are both left out or in order between 1 and 65535, and
-- its protocol is left out or one of the names that the documentation of the API lists
-- (`protocol_names`); the numbers from 0 to 255, which it lists too, are refused.
pub check_rule-IsValid : (f : Formats) (r : Rule) → (check_rule f (some r) ≡ none) ↔ IsValid f r
check_rule-IsValid f r =
    let checks = check_rule-checks f r in
    let long =
      refuse-none_iff (ltb 255 (f.rune_count r.description)) (
        Error.length_overflow_parameter_value (Param.plain "security_group_rule.description")
          255) in
    (
      λ h.
          let a = checks.0 h in
          record {
            description = long.0 a.0;
            remote = (check_remote-IsRemote f r).0 a.1.0;
            direction = (check_direction-none_iff r.direction).0 a.1.1.0;
            ports = (check_ports-none_iff r.port_range_max r.port_range_min).0 a.1.1.1.0;
            protocol = (check_protocol-none_iff r.protocol).0 a.1.1.1.1.0;
          },
      λ v. checks.1 (
        long.1 v.description,
        (
          (check_remote-IsRemote f r).1 v.remote,
          (
            (check_direction-none_iff r.direction).1 v.direction,
            (
              (check_ports-none_iff r.port_range_max r.port_range_min).1 v.ports,
              ((check_protocol-none_iff r.protocol).1 v.protocol, tt),
            ),
          ),
        ),
      ),
    )
