-- ===== src/Api/Source.antt =====
-- internal/api/auth.go: requestSource, the address that failed sign-ins are counted for. A header that
-- is not sent is empty. net and net/netip are the library's.
pub mod Forwarded
use vibe_forge.Base.{
  ℕ, Bool, true, false, any, Option, none, some, List, [], ◌∷◌, Text, codes, trim, is_unicode_space,
  split_on, if◌then◌else◌,
}

-- The library calls; `split_host_port` gives the host.
pub record Net : Type 1 where
  pub Addr : Type 0
  pub Prefix : Type 0
  pub split_host_port : Text → Option Text
  pub parse_addr : Text → Option Addr
  pub without_zone : Addr → Addr
  pub unmap : Addr → Addr
  pub show : Addr → Text
  pub contains : Prefix → Addr → Bool

module _ (net : Net) where
  abbrev pub normalized_ip : net.Addr → net.Addr
  normalized_ip ip = net.unmap (net.without_zone ip)

  abbrev pub is_trusted_proxy : List net.Prefix → net.Addr → Bool
  is_trusted_proxy proxies ip = any (λ p. net.contains p ip) proxies

  abbrev pub last_of : List Text → Text
  last_of [] = []
  last_of (e ∷ []) = e
  last_of (e ∷ f ∷ es) = last_of (f ∷ es)

  abbrev pub host_or : Text → Option Text → Text
  host_or remote none = remote
  host_or remote (some host) = host

  abbrev shown_or : Text → Option net.Addr → Text
  shown_or other none = other
  shown_or other (some ip) = net.show (normalized_ip ip)

  -- The address that the last proxy reports, or else its own.
  abbrev pub reported : Text → Text → net.Addr → Text
  reported last_forwarded real_ip ip =
      shown_or (shown_or (net.show ip) (net.parse_addr (trim is_unicode_space real_ip)))
        (net.parse_addr (trim is_unicode_space last_forwarded))

  abbrev unparsed : Text → Text
  unparsed [] = codes "unknown"
  unparsed (c ∷ host) = c ∷ host

  abbrev pub source_of : List net.Prefix → Text → Text → Text → Option net.Addr → Text
  source_of proxies last_forwarded real_ip host none = unparsed host
  source_of proxies last_forwarded real_ip host (some ip) =
      if is_trusted_proxy proxies (normalized_ip ip)
      then reported last_forwarded real_ip (normalized_ip ip)
      else net.show (normalized_ip ip)

  unfoldable pub request_source : List net.Prefix → Text → Text → Text → Text
  request_source proxies remote_addr forwarded_for real_ip =
      let host = host_or remote_addr (net.split_host_port remote_addr) in
      source_of proxies (last_of (split_on b',' forwarded_for)) real_ip host (net.parse_addr host)
