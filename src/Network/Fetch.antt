-- ===== src/Network/Fetch.antt =====
-- src/safety/network.rs and src/tools/web.rs: which addresses `WebFetchTool` reaches. The client is
-- reqwest's, which resolves the name of the host once more.
use bonsai_agent.Prelude.{
  Bool, true, false, not, ◌≡◌, refl, ap, ◌⊎◌, inl, inr, String, ◌<>◌, Option, none, some, List, [],
  ◌∷◌, all, is_empty, arith,
}
use bonsai_agent.Network.{
  IpAddr, is_private_or_restricted_ip, Url, Outside, NetworkFilter, default_port, check_ips,
  check_resolved, check_address, address_of, check_host, check_named, check_url, is_allowed,
  validate_fetch_url_with_resolver,
}

abbrev pub resolved_ips : List IpAddr ⊎ String → List IpAddr
resolved_ips (inl ips) = ips
resolved_ips (inr e) = []

-- A host that is an address is reached there, and another at the addresses of its name.
abbrev pub reached_by : Option IpAddr → List IpAddr ⊎ String → List IpAddr
reached_by (some ip) resolved = ip ∷ []
reached_by none resolved = resolved_ips resolved

-- The addresses that the client connects to for a URL.
abbrev pub Client : Type 0 → Type 0
Client W = String → W → List IpAddr × W

module _ {W : Type 0} (o : Outside W) where
  abbrev pub resolve_host : Url → String → W → (List IpAddr ⊎ String) × W
  resolve_host u host = o.resolve host (default_port o u.scheme u.port_or_known_default)

  abbrev pub sent : Client W → String → Option String × W → Option String × List IpAddr × W
  sent client url (some e, w) = (some ("セキュリティエラー: " <> e), [], w)
  sent client url (none, w) = let (ips, w') = client url w in (none, ips, w')

  -- The security error, if there is one, and the addresses that are reached.
  unfoldable pub web_fetch : Client W → NetworkFilter → String → W → Option String × List IpAddr × W
  web_fetch client filter url w = sent client url (validate_fetch_url_with_resolver o url filter w)

  -- What is documented of the client: it connects to the host of the URL, by its address or by the
  -- addresses that its name has then.
  abbrev pub Follows : Client W → Type 0
  Follows client =
      (url : String) (u : Url) (host : String) (w : W)
      → o.parse_url url ≡ inl u
      → u.host_str ≡ some host
      → (client url w).0 ≡ reached_by (address_of o host) (resolve_host u host w).0

  -- A name keeps its addresses between the test and the connection.
  abbrev pub IsStable : Type 0
  IsStable =
      (u : Url) (host : String) (w : W)
      → (resolve_host u host (resolve_host u host w).1).0 ≡ (resolve_host u host w).0

  -- What a URL without an error is.
  record Passed (filter : NetworkFilter) (url : String) (w w' : W) : Type 0 where
    u : Url
    host : String
    parsed : o.parse_url url ≡ inl u
    hosted : u.host_str ≡ some host
    allowed : is_allowed o filter url ≡ true
    checked : check_address o host (address_of o host) (resolve_host u host w) w ≡ (none, w')

  passed_host :
      (filter : NetworkFilter) (url : String) (u : Url) (host : String) (w w' : W)
      → check_host o filter url u host w ≡ (none, w')
      → (is_allowed o filter url ≡ true)
        × (check_address o host (address_of o host) (resolve_host u host w) w ≡ (none, w'))
  unfolding check_host
  passed_host filter url u host w w' h = (ground arith, ground arith)

  Passed-named :
      (filter : NetworkFilter) (url : String) (u : Url) (host : Option String) (w w' : W)
      → o.parse_url url ≡ inl u
      → u.host_str ≡ host
      → check_named o filter url u host w ≡ (none, w')
      → Passed filter url w w'
  unfolding check_named
  Passed-named filter url u none w w' parsed hosted h = absurd (ground arith)
  Passed-named filter url u (some host) w w' parsed hosted h =
      let (allowed, checked) = passed_host filter url u host w w' h in
      record {
        u = u;
        host = host;
        parsed = parsed;
        hosted = hosted;
        allowed = allowed;
        checked = checked;
      }

  Passed-url :
      (filter : NetworkFilter) (url : String) (parsed : Url ⊎ String) (w w' : W)
      → o.parse_url url ≡ parsed
      → check_url o filter url parsed w ≡ (none, w')
      → Passed filter url w w'
  unfolding check_url
  Passed-url filter url (inr e) w w' parsed h = absurd (ground arith)
  Passed-url filter url (inl u) w w' parsed h =
      Passed-named filter url u u.host_str w w' parsed refl (ground arith)

  abbrev pub unrestricted : List IpAddr → Bool
  unrestricted = all (λ ip. not (is_private_or_restricted_ip ip))

  check_ips-none :
      (host : String) (ips : List IpAddr) → check_ips o host ips ≡ none → unrestricted ips ≡ true
  unfolding check_ips
  check_ips-none host [] h = refl
  check_ips-none host (ip ∷ ips) h = ground (arith, check_ips-none host ips)

  check_resolved-none :
      (host : String) (resolved : List IpAddr ⊎ String)
      → check_resolved o host resolved ≡ none
      → unrestricted (resolved_ips resolved) ≡ true
  unfolding check_resolved
  check_resolved-none host (inr e) h = refl
  check_resolved-none host (inl []) h = refl
  check_resolved-none host (inl (ip ∷ ips)) h = check_ips-none host (ip ∷ ips) h

  -- The addresses at the time of the test are not restricted, and the world is that after it.
  check_address-none :
      (u : Url) (host : String) (address : Option IpAddr) (w w' : W)
      → IsStable
      → check_address o host address (resolve_host u host w) w ≡ (none, w')
      → unrestricted (reached_by address (resolve_host u host w').0) ≡ true
  unfolding check_address
  check_address-none u host (some ip) w w' stable h = ground arith
  check_address-none u host none w w' stable h =
      let now : (resolve_host u host w).1 ≡ w' = ap (λ r. r.1) h in
      let free = check_resolved-none host (resolve_host u host w).0 (ap (λ r. r.0) h) in
      rw (← now) (rw (stable u host w) free)

  -- The addresses that are reached, and whether the filter lets the URL pass.
  pub record IsGuarded (filter : NetworkFilter) (url : String) (ips : List IpAddr) : Type 0 where
    pub free : unrestricted ips ≡ true
    pub allowed : is_empty ips ≡ false → is_allowed o filter url ≡ true

  sent-IsGuarded :
      (client : Client W) (filter : NetworkFilter) (url : String) (w : W)
      (answer : Option String × W)
      → Follows client
      → IsStable
      → validate_fetch_url_with_resolver o url filter w ≡ answer
      → IsGuarded filter url (sent client url answer).1
  unfolding validate_fetch_url_with_resolver
  sent-IsGuarded client filter url w (some e, w') follows stable h = record {
    free = refl;
    allowed = λ reached. cc;
  }
  sent-IsGuarded client filter url w (none, w') follows stable h =
      let p = Passed-url filter url (o.parse_url url) w w' refl h in
      record {
        free =
            rw (follows url p.u p.host w' p.parsed p.hosted)
              (check_address-none p.u p.host (address_of o p.host) w w' stable p.checked);
        allowed = λ reached. p.allowed;
      }

  -- Where the client follows the URL and a name keeps its addresses between the test and the
  -- connection, a fetch reaches no restricted address, and none at all for a URL that the filter
  -- does not let pass.
  pub web_fetch-IsGuarded :
      (client : Client W) (filter : NetworkFilter) (url : String) (w : W)
      → Follows client
      → IsStable
      → IsGuarded filter url (web_fetch client filter url w).1
  unfolding web_fetch
  web_fetch-IsGuarded client filter url w follows stable =
      sent-IsGuarded client filter url w (validate_fetch_url_with_resolver o url filter w) follows
        stable refl
