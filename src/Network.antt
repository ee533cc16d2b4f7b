-- ===== src/Network.antt =====
-- src/safety/network.rs: which addresses the agent may fetch from, and src/tools/web.rs: the fetch. The
-- parsers of URLs and of addresses, Unicode lower case and the resolution of names are parameters;
-- an address is the numbers that it is made of.
pub mod Blocks
pub mod Fetch
mod Examples
use Prim.Native.Nat.{bit_and}
use Prim.Native.Char.{code}
use bonsai_agent.Prelude.{
  ℕ, ◌+◌, ◌*◌, ◌/◌, ◌%◌, Bool, true, false, ◌&&◌, ◌||◌, not, String, ◌<>◌, ◌⊎◌, inl, inr, Option,
  none, some, List, [], ◌∷◌, str_eq, any, is_empty, leb, ◌==◌, if◌then◌else◌,
}

pub data IpAddr : Type 0 where
  v4 : ℕ → ℕ → ℕ → ℕ → IpAddr
  v6 : ℕ → ℕ → ℕ → ℕ → ℕ → ℕ → ℕ → ℕ → IpAddr

abbrev pub segments_are_zero : List ℕ → Bool
segments_are_zero [] = true
segments_are_zero (s ∷ ss) = s == 0 && segments_are_zero ss

-- `Ipv4Addr::is_loopback`, `is_private`, `is_link_local`, `is_broadcast` and `is_unspecified`, and the
-- three tests of the source.
unfoldable pub is_restricted_v4 : ℕ → ℕ → ℕ → ℕ → Bool
is_restricted_v4 a b c d =
    a == 127
    || (a == 10 || (a == 172 && leb 16 b && leb b 31) || (a == 192 && b == 168))
    || (a == 169 && b == 254)
    || (a == 255 && b == 255 && c == 255 && d == 255)
    || (a == 0 && b == 0 && c == 0 && d == 0)
    || (a == 169 && b == 254)
    || (a == 100 && bit_and b 0xc0 == 64)
    || (a == 192 && b == 0 && c == 0)

-- `Ipv6Addr::to_ipv4_mapped`.
unfoldable pub to_ipv4_mapped : ℕ → ℕ → ℕ → ℕ → ℕ → ℕ → ℕ → ℕ → Option (ℕ × ℕ × ℕ × ℕ)
to_ipv4_mapped s₀ s₁ s₂ s₃ s₄ s₅ s₆ s₇ =
    if segments_are_zero (s₀ ∷ s₁ ∷ s₂ ∷ s₃ ∷ s₄ ∷ []) && s₅ == 0xffff
    then some (s₆ / 256, s₆ % 256, s₇ / 256, s₇ % 256)
    else none

abbrev pub is_mapped_restricted : Option (ℕ × ℕ × ℕ × ℕ) → Bool
is_mapped_restricted none = false
is_mapped_restricted (some (a, b, c, d)) = is_restricted_v4 a b c d

unfoldable pub is_private_or_restricted_ip : IpAddr → Bool
is_private_or_restricted_ip (v4 a b c d) = is_restricted_v4 a b c d
is_private_or_restricted_ip (v6 s₀ s₁ s₂ s₃ s₄ s₅ s₆ s₇) =
    (segments_are_zero (s₀ ∷ s₁ ∷ s₂ ∷ s₃ ∷ s₄ ∷ s₅ ∷ s₆ ∷ []) && s₇ == 1)
    || segments_are_zero (s₀ ∷ s₁ ∷ s₂ ∷ s₃ ∷ s₄ ∷ s₅ ∷ s₆ ∷ s₇ ∷ [])
    || bit_and s₀ 0xfe00 == 0xfc00
    || bit_and s₀ 0xffc0 == 0xfe80
    || is_mapped_restricted (to_ipv4_mapped s₀ s₁ s₂ s₃ s₄ s₅ s₆ s₇)

pub record Url : Type 0 where
  pub scheme : String
  pub host_str : Option String
  pub port_or_known_default : Option ℕ

-- The parsers, with the text of an error; `resolve` is `to_socket_addrs` at a moment of the world.
pub record Outside (W : Type 0) : Type 0 where
  pub parse_url : String → Url ⊎ String
  pub parse_ip : String → Option IpAddr
  pub show_ip : IpAddr → String
  pub to_lowercase : String → String
  pub resolve : String → ℕ → W → (List IpAddr ⊎ String) × W

pub record NetworkFilter : Type 0 where
  pub allowed_domains : List String
  pub block_by_default : Bool

-- `s.ends_with(t)`.
unfoldable pub ends_with : String → String → Bool
ends_with String.[] t = str_eq "" t
ends_with (String.◌∷◌ c s) t = str_eq (String.◌∷◌ c s) t || ends_with s t

-- `s.trim_start_matches('[')` and `s.trim_end_matches(']')`.
abbrev pub trim_open : String → String
trim_open String.[] = ""
trim_open (String.◌∷◌ c s) =
    let rest = trim_open s in if code c == b'[' then rest else String.◌∷◌ c s

abbrev pub without_close : ℕ → String → String → String
without_close c rest s = if str_eq rest "" then (if c == b']' then "" else s) else s

pub trim_close : String → String
trim_close String.[] = ""
trim_close (String.◌∷◌ c s) =
    let rest = trim_close s in without_close (code c) rest (String.◌∷◌ c rest)

module _ {W : Type 0} (o : Outside W) where
  host_of : Url ⊎ String → Option String
  host_of (inl u) = u.host_str
  host_of (inr e) = none

  pub extract_domain : String → String
  unfolding host_of
  extract_domain url = elim (host_of (o.parse_url url)) [
    | some host ↦ o.to_lowercase host
    | none ↦ elim (host_of (o.parse_url ("http://" <> url))) [
      | some host ↦ o.to_lowercase host
      | none ↦ ""
    ]
  ]

  unfoldable pub is_allowed : NetworkFilter → String → Bool
  is_allowed filter url =
      let domain = extract_domain url in
      if not filter.block_by_default
      then true
      else any (λ d. str_eq domain d || ends_with domain ("." <> d)) filter.allowed_domains

  unfoldable pub is_local_name : String → Bool
  is_local_name host =
      str_eq host "localhost"
      || ends_with host ".localhost"
      || ends_with host ".local"
      || ends_with host ".internal"

  abbrev pub default_port : String → Option ℕ → ℕ
  default_port scheme (some port) = port
  default_port scheme none = if str_eq scheme "https" then 443 else 80

  -- The first of the addresses that is restricted.
  unfoldable pub check_ips : String → List IpAddr → Option String
  check_ips host [] = none
  check_ips host (ip ∷ ips) =
      let rest = check_ips host ips in
      if is_private_or_restricted_ip ip
      then some ("名前解決されたIPがプライベート/制限対象です: " <> (o.show_ip ip <> (" (ホスト: " <> (host <> ")"))))
      else rest

  unfoldable pub check_resolved : String → List IpAddr ⊎ String → Option String
  check_resolved host (inr e) = some ("ホスト '" <> (host <> ("' の名前解決に失敗しました (fail-closed): " <> e)))
  check_resolved host (inl []) = some ("ホスト '" <> (host <> "' の名前解決結果が空です (fail-closed)"))
  check_resolved host (inl (ip ∷ ips)) = check_ips host (ip ∷ ips)

  -- The host as an address, or the addresses of its name.
  unfoldable pub check_address :
      String → Option IpAddr → (List IpAddr ⊎ String) × W → W → Option String × W
  check_address host (some ip) resolved w = (
    if is_private_or_restricted_ip ip
        then some ("プライベート/制限されたIPへのアクセスは拒否されました: " <> o.show_ip ip)
        else none,
    w,
  )
  check_address host none (ips, w') w = (check_resolved host ips, w')

  abbrev pub address_of : String → Option IpAddr
  address_of host = o.parse_ip (trim_close (trim_open host))

  unfoldable pub check_host : NetworkFilter → String → Url → String → W → Option String × W
  check_host filter url u host w =
      if is_local_name (o.to_lowercase host)
      then (some ("ローカルアドレスへのアクセスは拒否されました: '" <> (host <> "'")), w)
      else if not (is_allowed filter url)
      then (some ("ドメインフィルタによりアクセスがブロックされました: '" <> (host <> "'")), w)
      else check_address host (address_of host)
          (o.resolve host (default_port u.scheme u.port_or_known_default) w) w

  unfoldable pub check_named : NetworkFilter → String → Url → Option String → W → Option String × W
  check_named filter url u none w = (some "ホスト名が空です", w)
  check_named filter url u (some host) w = check_host filter url u host w

  unfoldable pub check_url : NetworkFilter → String → Url ⊎ String → W → Option String × W
  check_url filter url (inr e) w = (some ("無効なURL形式です: " <> e), w)
  check_url filter url (inl u) w =
      if not (str_eq u.scheme "http") && not (str_eq u.scheme "https")
      then (some ("未許可のスキーム: '" <> (u.scheme <> "' (http/httpsのみ許可)")), w)
      else check_named filter url u u.host_str w

  -- The error, if there is one.
  unfoldable pub validate_fetch_url_with_resolver : String → NetworkFilter → W → Option String × W
  validate_fetch_url_with_resolver url filter w = check_url filter url (o.parse_url url) w
