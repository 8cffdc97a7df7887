-- ===== src/Identity/Http/Source/Trusted.antt =====
-- Which address services/identity/internal/adapter/in/http/source_address.go answers with.
use flowspace_api.Base.{
  ◌≡◌, refl, true, false, not, List, [], ◌∷◌, ◌++◌, none, some, arith, Text, inl, inr, ◌⊎◌, ◌||◌,
  any, Option-cases, Bool-cases,
}
use flowspace_api.Identity.Run.{done}
use flowspace_api.Identity.Http.Source.{
  Net, SourceHeaders, is_trusted, last_untrusted, source_of, peer_of, forwarded_chain, source_with,
  source_address, or_invalid, is_given,
}

abbrev pub IsLastUntrusted : (net : Net) → List net.Prefix → List net.Addr → net.Addr → Type 0
IsLastUntrusted net trusted chain address =
    (before : List net.Addr) × (after : List net.Addr) × (chain ≡ before ++ address ∷ after)
    × (is_trusted net address trusted ≡ false)
    × (any (λ later. not (is_trusted net later trusted)) after ≡ false)

abbrev pub IsSource : (net : Net) → List net.Prefix → net.Addr → List net.Addr → net.Addr → Type 0
IsSource net trusted peer chain address =
    ((is_trusted net peer trusted ≡ false) × (address ≡ peer))
    ⊎ ((is_trusted net peer trusted ≡ true) × IsLastUntrusted net trusted chain address)

module _ (net : Net) (trusted : List net.Prefix) where
  none-last_untrusted :
      (chain : List net.Addr)
      → last_untrusted net trusted chain ≡ none
      → any (λ later. not (is_trusted net later trusted)) chain ≡ false
  unfolding last_untrusted
  none-last_untrusted [] h = refl
  none-last_untrusted (a ∷ chain) h = ground (arith, none-last_untrusted chain)

  last_untrusted-IsLastUntrusted :
      (chain : List net.Addr) (address : net.Addr)
      → last_untrusted net trusted chain ≡ some address
      → IsLastUntrusted net trusted chain address
  unfolding last_untrusted
  last_untrusted-IsLastUntrusted [] address h = absurd (ground arith)
  last_untrusted-IsLastUntrusted (a ∷ chain) address h =
      elim (Option-cases (last_untrusted net trusted chain)) [
        | inl stop ↦ elim (Bool-cases (is_trusted net a trusted)) [
          | inl inside ↦ absurd (ground arith)
          | inr outside ↦ ([], chain, ground arith, ground arith, none-last_untrusted chain stop)
        ]
        | inr (later, found) ↦
            let (before, after, parts, own, rest) =
              last_untrusted-IsLastUntrusted chain address (ground arith) in
            (a ∷ before, after, cc parts, own, rest)
      ]

  source_of-IsSource :
      (peer : net.Addr) (chain : List net.Addr) (address : net.Addr)
      → source_of net peer chain trusted ≡ some address
      → IsSource net trusted peer chain address
  unfolding source_of
  source_of-IsSource peer chain address h = elim (Bool-cases (is_trusted net peer trusted)) [
    | inl inside ↦ inr (inside, last_untrusted-IsLastUntrusted chain address (ground arith))
    | inr outside ↦ inl (outside, ground arith)
  ]

  abbrev pub Answers : Text → SourceHeaders → Text → Type 0
  Answers remote headers text =
      (peer : net.Addr) × (chain : List net.Addr) × (address : net.Addr) × (peer_of net remote
        ≡ some peer)
      × (forwarded_chain net headers.x_forwarded_for ≡ some chain)
      × (net.addr_text address ≡ text)
      × IsSource net trusted peer chain address

  source_with-Answers :
      (remote : Text) (headers : SourceHeaders) (text : Text)
      → or_invalid net (
          source_with net
            (peer_of net remote)
            (forwarded_chain net headers.x_forwarded_for)
            trusted)
        ≡ done text
      → Answers remote headers text
  unfolding source_with
  source_with-Answers remote headers text h = elim (Option-cases (peer_of net remote)) [
    | inl missing ↦ absurd (ground arith)
    | inr (peer, from) ↦ elim (Option-cases (forwarded_chain net headers.x_forwarded_for)) [
      | inl malformed ↦ absurd (ground arith)
      | inr (chain, parsed) ↦ elim (Option-cases (source_of net peer chain trusted)) [
        | inl stop ↦ absurd (ground arith)
        | inr (address, found) ↦ (
          peer,
          chain,
          address,
          from,
          parsed,
          ground arith,
          source_of-IsSource peer chain address found,
        )
      ]
    ]
  ]

  -- The answer to a call is the text of the peer's address if the peer is no trusted proxy, and else
  -- of an address of X-Forwarded-For that is no trusted proxy and has only trusted ones behind it.
  -- There is no answer if Forwarded or X-Real-IP is given.
  pub source_address-Answers :
      (remote : Text) (headers : SourceHeaders) (text : Text)
      → source_address net remote headers trusted ≡ done text
      → (is_given net headers.forwarded ≡ false)
        × (is_given net headers.x_real_ip ≡ false)
        × Answers remote headers text
  unfolding source_address
  source_address-Answers remote headers text h =
      elim (Bool-cases (is_given net headers.forwarded || is_given net headers.x_real_ip)) [
        | inl given ↦ absurd (ground arith)
        | inr neither ↦
            (ground arith, ground arith, source_with-Answers remote headers text (ground arith))
      ]
