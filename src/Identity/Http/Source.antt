-- ===== src/Identity/Http/Source.antt =====
-- services/identity/internal/adapter/in/http/source_address.go. The types and functions of net and
-- net/netip are the fields of a record.
pub mod Trusted
use flowspace_api.Base.{
  ℕ, Bool, true, false, not, ◌||◌, List, [], ◌∷◌, ◌++◌, Option, none, some, ◌==◌, if◌then◌else◌,
  any, Text, is_empty,
}
use flowspace_api.Encoding.Split.{split}
use flowspace_api.Encoding.Trim.{trim_space}
use flowspace_api.Identity.Errors.{sentinel, invalid_source_address}
use flowspace_api.Identity.Run.{Result, done, refused}

-- netip.Addr and netip.Prefix with their functions, and net.SplitHostPort.
pub record Net : Type 1 where
  pub Addr : Type 0
  pub Prefix : Type 0
  pub split_host_port : Text → Option (Text × Text)
  pub parse_addr : Text → Option Addr
  pub zone : Addr → Text
  pub unmap : Addr → Addr
  pub addr_text : Addr → Text
  pub parse_prefix : Text → Option Prefix
  pub bits : Prefix → ℕ
  pub prefix_addr : Prefix → Addr
  pub masked : Prefix → Prefix
  pub contains : Prefix → Addr → Bool

-- The values of the three headers.
pub record SourceHeaders : Type 0 where
  pub forwarded : List Text
  pub x_real_ip : List Text
  pub x_forwarded_for : List Text

module _ (net : Net) where
  unfoldable pub is_trusted : net.Addr → List net.Prefix → Bool
  is_trusted address proxies = any (λ prefix. net.contains prefix address) proxies

  unfoldable pub with_proxy :
      Option net.Prefix → Option (List net.Prefix) → Option (List net.Prefix)
  with_proxy none rest = none
  with_proxy (some prefix) none = none
  with_proxy (some prefix) (some rest) =
      if (net.bits prefix == 0) || not (is_empty (net.zone (net.prefix_addr prefix)))
      then none
      else some (net.masked prefix ∷ rest)

  -- `none` is ErrInvalidSourceAddress.
  unfoldable pub trusted_proxies : List Text → Option (List net.Prefix)
  unfolding with_proxy
  trusted_proxies [] = some []
  trusted_proxies (cidr ∷ cidrs) = with_proxy (net.parse_prefix cidr) (trusted_proxies cidrs)

  unfoldable pub unzoned : Option net.Addr → Option net.Addr
  unzoned none = none
  unzoned (some address) = if is_empty (net.zone address) then some (net.unmap address) else none

  unfoldable pub with_link : Option net.Addr → Option (List net.Addr) → Option (List net.Addr)
  with_link none rest = none
  with_link (some address) none = none
  with_link (some address) (some rest) = some (address ∷ rest)

  unfoldable pub chain_of : List Text → Option (List net.Addr)
  unfolding unzoned with_link
  chain_of [] = some []
  chain_of (raw ∷ parts) = with_link (unzoned (net.parse_addr (trim_space raw))) (chain_of parts)

  -- X-Forwarded-For may be given once.
  unfoldable pub forwarded_chain : List Text → Option (List net.Addr)
  unfolding chain_of
  forwarded_chain [] = some []
  forwarded_chain (value ∷ []) = chain_of (split 44 value)
  forwarded_chain (value ∷ other ∷ rest) = none

  -- The last address of the chain that is no trusted proxy.
  unfoldable pub last_untrusted : List net.Prefix → List net.Addr → Option net.Addr
  unfolding is_trusted
  last_untrusted trusted [] = none
  last_untrusted trusted (address ∷ chain) = elim (last_untrusted trusted chain) [
    | some later ↦ some later
    | none ↦ if is_trusted address trusted then none else some address
  ]

  unfoldable pub source_of : net.Addr → List net.Addr → List net.Prefix → Option net.Addr
  unfolding last_untrusted is_trusted
  source_of peer chain trusted =
      if is_trusted peer trusted then last_untrusted trusted chain else some peer

  unfoldable pub peer_of : Text → Option net.Addr
  unfolding unzoned
  peer_of remote = elim (net.split_host_port remote) [
    | none ↦ none
    | some (host, port) ↦ unzoned (net.parse_addr host)
  ]

  unfoldable pub source_with :
      Option net.Addr → Option (List net.Addr) → List net.Prefix → Option net.Addr
  unfolding source_of
  source_with none chain trusted = none
  source_with (some peer) none trusted = none
  source_with (some peer) (some chain) trusted = source_of peer chain trusted

  abbrev pub is_given : List Text → Bool
  is_given [] = false
  is_given (value ∷ values) = true

  abbrev pub or_invalid : Option net.Addr → Result Text
  or_invalid none = refused (sentinel invalid_source_address)
  or_invalid (some address) = done (net.addr_text address)

  unfoldable pub source_address : Text → SourceHeaders → List net.Prefix → Result Text
  unfolding peer_of forwarded_chain source_with
  source_address remote headers trusted =
      if is_given headers.forwarded || is_given headers.x_real_ip
      then refused (sentinel invalid_source_address)
      else or_invalid
          (source_with (peer_of remote) (forwarded_chain headers.x_forwarded_for) trusted)
