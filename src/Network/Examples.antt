-- ===== src/Network/Examples.antt =====
-- URLs of a small world, in which a name is resolved to the numbers of the times that it was before.
use bonsai_agent.Prelude.{
  ℕ, ◌+◌, true, false, ◌≡◌, refl, ap, ◌∙◌, ◌⊎◌, inl, inr, String, Option, none, some, List, [], ◌∷◌,
  str_eq, leb, arith, if◌then◌else◌,
}
use bonsai_agent.Network.{
  IpAddr, v4, v6, Url, Outside, NetworkFilter, is_private_or_restricted_ip, is_restricted_v4,
  to_ipv4_mapped, is_allowed, ends_with, extract_domain, validate_fetch_url_with_resolver,
  check_url, check_named, check_host, check_address, check_resolved, check_ips, is_local_name,
  trim_close, address_of,
}
use bonsai_agent.Network.Blocks.{in_blocks, is_private_or_restricted_ip-blocks}
use bonsai_agent.Network.Fetch.{
  Client, reached_by, resolve_host, web_fetch, Follows, IsStable, IsGuarded, web_fetch-IsGuarded,
}

is_private_or_restricted_ip-blocks_example :
    is_private_or_restricted_ip (v4 100 127 0 1) ≡ in_blocks (v4 100 127 0 1)
is_private_or_restricted_ip-blocks_example =
    is_private_or_restricted_ip-blocks (v4 100 127 0 1) (omega arith)

-- The metadata of a cloud behind a mapped address, and an address of the block 0.0.0.0/8.
mapped_metadata : is_private_or_restricted_ip (v6 0 0 0 0 0 0xffff 0xa9fe 0xa9fe) ≡ true
unfolding is_private_or_restricted_ip to_ipv4_mapped is_restricted_v4
mapped_metadata = refl

zero_one : is_private_or_restricted_ip (v4 0 0 0 1) ≡ false
unfolding is_private_or_restricted_ip is_restricted_v4
zero_one = refl

url_of : String → Url ⊎ String
url_of url =
    if str_eq url "http://site"
    then inl (record { scheme = "http"; host_str = some "site"; port_or_known_default = some 80 })
    else if str_eq url "http://127.0.0.1"
    then inl
        (record { scheme = "http"; host_str = some "127.0.0.1"; port_or_known_default = some 80 })
    else inr "relative URL without a base"

address : String → Option IpAddr
address host = if str_eq host "127.0.0.1" then some (v4 127 0 0 1) else none

module _ (resolve : String → ℕ → ℕ → (List IpAddr ⊎ String) × ℕ) where
  abbrev world : Outside ℕ
  world = record {
    parse_url = url_of;
    parse_ip = address;
    show_ip = λ ip. "";
    to_lowercase = λ s. s;
    resolve = resolve;
  }

  go_to : Url → Option String → ℕ → List IpAddr × ℕ
  go_to u none w = ([], w)
  go_to u (some host) w =
      (reached_by (address_of world host) (resolve_host world u host w).0, w + 1)

  visit : Url ⊎ String → ℕ → List IpAddr × ℕ
  visit (inr e) w = ([], w)
  visit (inl u) w = go_to u u.host_str w

  client : Client ℕ
  client url w = visit (url_of url) w

  client-Follows : Follows world client
  unfolding client visit go_to
  client-Follows url u host w parsed hosted =
      ap (λ p. (visit p w).0) parsed ∙ ap (λ h. (go_to u h w).0) hosted

steady : String → ℕ → ℕ → (List IpAddr ⊎ String) × ℕ
steady host port w = (inl (v4 8 8 8 8 ∷ []), w + 1)

steady-IsStable : IsStable (world steady)
unfolding steady
steady-IsStable u host w = refl

abbrev open_filter : NetworkFilter
open_filter = record { allowed_domains = []; block_by_default = false }

abbrev site_filter : NetworkFilter
site_filter = record { allowed_domains = "site" ∷ []; block_by_default = true }

web_fetch-IsGuarded_example :
    IsGuarded
      (world steady)
      site_filter
      "http://site"
      (web_fetch (world steady) (client steady) site_filter "http://site" 0).1
web_fetch-IsGuarded_example =
    web_fetch-IsGuarded (world steady) (client steady) site_filter "http://site" 0
      (client-Follows steady) steady-IsStable

-- A name that changes its address after the test.
changing : String → ℕ → ℕ → (List IpAddr ⊎ String) × ℕ
changing host port w =
    if leb 1 w then (inl (v4 127 0 0 1 ∷ []), w + 1) else (inl (v4 8 8 8 8 ∷ []), w + 1)

-- The fetch then reaches the machine itself, without an error.
rebound :
    web_fetch (world changing) (client changing) site_filter "http://site" 0
    ≡ (none, v4 127 0 0 1 ∷ [], 2)
unfolding web_fetch validate_fetch_url_with_resolver check_url check_named check_host check_address
    check_resolved check_ips is_local_name is_allowed ends_with extract_domain trim_close
    is_private_or_restricted_ip is_restricted_v4 changing client visit go_to url_of address
rebound = refl
