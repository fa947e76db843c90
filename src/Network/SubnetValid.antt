-- ===== src/Network/SubnetValid.antt =====
-- Which subnets `validateCreateClusterSubnetRequest` of
-- cluster-manager/internal/network/validator.go lets through.
use cdm_center.Prelude.{
  ℕ, String, Bool, true, false, not, ◌≤◌, none, some, ◌==◌, ◌≡◌, ◌↔◌, String-Eq, arith,
}
use cdm_center.Prelude.Lists.{All}
use cdm_center.Errors.{Error}
use cdm_center.Connection.{
  Formats, first_error, first_error-none_iff, refuse, refuse-none_iff, check_each-All,
  length-none_iff,
}
use cdm_center.Network.{
  DhcpPool, Subnet, check_address, check_dhcp_pool, check_nameserver, subnet_checks, check_subnet,
}

-- an address that is given and is one
abbrev pub IsAddress : (String → Bool) → String → Type 0
IsAddress is_ip s = ((s == "") ≡ false) × (is_ip s ≡ true)

abbrev pub IsPool : (String → Bool) → DhcpPool → Type 0
IsPool is_ip p = IsAddress is_ip p.start_ip_address × IsAddress is_ip p.end_ip_address

unfoldable pub IsSubnet : Formats → (String → Bool) → Subnet → Type 0
IsSubnet f is_ip s =
    (f.rune_count s.name ≤ 255)
    × (f.rune_count s.description ≤ 255)
    × ((s.network_cidr == "") ≡ false)
    × (f.is_cidr s.network_cidr ≡ true)
    × All (IsPool is_ip) s.dhcp_pools
    × All (IsAddress is_ip) s.nameservers

check_nameserver-IsAddress :
    (is_ip : String → Bool) (i : ℕ) (s : String)
    → (check_nameserver is_ip i s ≡ none) ↔ IsAddress is_ip s
unfolding check_nameserver check_address first_error refuse
check_nameserver-IsAddress is_ip i s = (λ h. ground (arith, h), λ h. ground (arith, h))

check_dhcp_pool-IsPool :
    (is_ip : String → Bool) (i : ℕ) (p : DhcpPool)
    → (check_dhcp_pool is_ip i p ≡ none) ↔ IsPool is_ip p
unfolding check_dhcp_pool check_address first_error refuse
check_dhcp_pool-IsPool is_ip i p = (λ h. ground (arith, h), λ h. ground (arith, h))

cidr-none_iff : (b : Bool) (e : Error) → (refuse (not b) e ≡ none) ↔ (b ≡ true)
unfolding refuse
cidr-none_iff b e = (λ h. ground (arith, h), λ h. ground (arith, h))

-- The check of a subnet that is to be created passes exactly if its name and its description have at
-- most 255 characters, its network is given in CIDR form, each pool has two addresses, and each name
-- server is an address.
pub check_subnet-IsSubnet :
    (f : Formats) (is_ip : String → Bool) (s : Subnet)
    → (check_subnet f is_ip (some s) ≡ none) ↔ IsSubnet f is_ip s
unfolding check_subnet subnet_checks IsSubnet
check_subnet-IsSubnet f is_ip s =
    let all = first_error-none_iff (subnet_checks f is_ip s) in
    let pools =
      check_each-All (IsPool is_ip) (check_dhcp_pool is_ip) (check_dhcp_pool-IsPool is_ip) 0
        s.dhcp_pools in
    let servers =
      check_each-All (IsAddress is_ip) (check_nameserver is_ip) (check_nameserver-IsAddress is_ip) 0
        s.nameservers in
    (
      (λ h.
          let c = all.0 h in
          (
            (length-none_iff (f.rune_count s.name) _).0 c.0,
            (length-none_iff (f.rune_count s.description) _).0 c.1.0,
            (refuse-none_iff (s.network_cidr == "") _).0 c.1.1.0,
            (cidr-none_iff (f.is_cidr s.network_cidr) _).0 c.1.1.1.0,
            pools.0 c.1.1.1.1.0,
            servers.0 c.1.1.1.1.1.0,
          )),
      (λ (n, d, g, c, p, v). all.1 (
        (length-none_iff (f.rune_count s.name) _).1 n,
        (
          (length-none_iff (f.rune_count s.description) _).1 d,
          (
            (refuse-none_iff (s.network_cidr == "") _).1 g,
            ((cidr-none_iff (f.is_cidr s.network_cidr) _).1 c, (pools.1 p, (servers.1 v, tt))),
          ),
        ),
      )),
    )
