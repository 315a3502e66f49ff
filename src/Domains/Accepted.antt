-- ===== src/Domains/Accepted.antt =====
-- The domains that baseline/tunnel_domains.py accepts.
use fake_ui.Prelude.{
  String, Bool, true, not, ◌&&◌, ◌||◌, Option, List, [], ◌∷◌, map, All, filter, false, sym, ◌∙◌,
  is_empty, eq_refl, ◌≡◌, refl, arith, Bool-cases, inl, inr,
}
use fake_ui.Prelude.Result.{ok, is_ok}
use fake_ui.Catalog.Distinct.{All-map}
use fake_ui.Domains.{
  DomainItem, Taken, Options, listed, is_none, meets, distinct, clean_domain, panel_set, node_set,
  tunnel_set, server_set, resolve_ips, classify_domain, verdict, validate_tunnel_domain,
  domain_options, options_of, placed, is_resolved,
}

abbrev pub domain_of : DomainItem → String
domain_of item = item.domain

module _ (getaddrinfo : String → Option (List String)) where
  -- The domain is given and nobody else's, and it leads to a known address of the server. No resolver
  -- is asked about a server whose addresses are not known.
  abbrev pub acceptable : String → List String → Taken → Bool
  acceptable domain server_ips k =
      let servers = server_set server_ips in
      let ips = resolve_ips getaddrinfo domain in
      not (is_empty domain)
      && not (listed domain (panel_set k))
      && not (listed domain (node_set k))
      && not (listed domain (tunnel_set k))
      && (is_none server_ips || (not (is_none ips) && (is_none servers || meets ips servers)))

  server_set-none :
      (server_ips : List String)
      → is_none server_ips ≡ true
      → is_none (server_set server_ips) ≡ true
  unfolding server_set
  server_set-none [] h = refl
  server_set-none (s ∷ rest) h = absurd cc

  -- validate_tunnel_domain returns exactly for a domain that is acceptable in its clean form: one
  -- that is not empty, that neither the panel, a node nor another tunnel has, and that leads to
  -- the server, if the server's addresses are known.
  pub validate_tunnel_domain-acceptable :
      (domain : String) (server_ips : List String) (k : Taken)
      → is_ok (validate_tunnel_domain getaddrinfo domain server_ips k)
        ≡ acceptable (clean_domain domain) server_ips k
  unfolding validate_tunnel_domain classify_domain
  validate_tunnel_domain-acceptable domain server_ips k = ground (arith, server_set-none server_ips)

  -- An item that validation returns for one of the domains.
  abbrev pub IsOffered : List String → Taken → List String → DomainItem → Type 0
  IsOffered server_ips k domains item =
      (domain : String) × (listed domain domains ≡ true)
      × (validate_tunnel_domain getaddrinfo domain server_ips k ≡ ok item)

  IsOffered-later :
      (server_ips : List String) (k : Taken) (d : String) (domains : List String)
      (item : DomainItem)
      → IsOffered server_ips k domains item
      → IsOffered server_ips k (d ∷ domains) item
  IsOffered-later server_ips k d domains item (domain, here, valid) =
      (domain, ground (arith, here), valid)

  -- Only a resolved item counts as available.
  placed-available :
      (item : DomainItem) (o : Options) (P : DomainItem → Type 0)
      → (is_resolved item.status ≡ true → P item)
      → All P o.available
      → All P (placed item o).available
  placed-available item o P new h = elim (Bool-cases (is_resolved item.status)) [
    | inl good ↦ rw good (new good, h)
    | inr bad ↦ rw bad h
  ]

  verdict-resolved :
      (server_ips : List String) (item : DomainItem)
      → is_resolved item.status ≡ true
      → verdict server_ips item ≡ ok item
  verdict-resolved server_ips item h = ground arith

  options_of-IsOffered :
      (server_ips : List String) (k : Taken) (domains : List String)
      → All (IsOffered server_ips k domains) (options_of getaddrinfo server_ips k domains).available
  unfolding validate_tunnel_domain
  options_of-IsOffered server_ips k [] = tt
  options_of-IsOffered server_ips k (d ∷ rest) =
      placed-available (classify_domain getaddrinfo d server_ips k)
        (options_of getaddrinfo server_ips k rest) (IsOffered server_ips k (d ∷ rest))
        (λ good. (
          d,
          ground (arith, eq_refl d),
          verdict-resolved server_ips (classify_domain getaddrinfo d server_ips k) good,
        ))
        (All-map (IsOffered-later server_ips k d rest)
          (options_of getaddrinfo server_ips k rest).available
          (options_of-IsOffered server_ips k rest))

  -- The domain may be offered: its clean form is given and nobody else's, it resolves, and where
  -- the server's addresses are known, to one of them.
  abbrev pub offers : List String → Taken → String → Bool
  offers server_ips k domain =
      let clean = clean_domain domain in
      let servers = server_set server_ips in
      let ips = resolve_ips getaddrinfo clean in
      not (is_empty clean)
      && not (listed clean (panel_set k))
      && not (listed clean (node_set k))
      && not (listed clean (tunnel_set k))
      && not (is_none ips)
      && (is_none servers || meets ips servers)

  classify_domain-offers :
      (server_ips : List String) (k : Taken) (domain : String)
      → (is_resolved (classify_domain getaddrinfo domain server_ips k).status
          ≡ offers server_ips k domain)
        × ((classify_domain getaddrinfo domain server_ips k).domain ≡ clean_domain domain)
  unfolding classify_domain
  classify_domain-offers server_ips k domain = ground arith

  -- The clean forms of the domains that are offered, and of the others, in their order.
  abbrev pub Splits : List String → Taken → List String → Options → Type 0
  Splits server_ips k domains options =
      (map domain_of options.available ≡ map clean_domain (filter (offers server_ips k) domains))
      × (map domain_of options.unavailable
          ≡ map clean_domain (filter (λ d. not (offers server_ips k d)) domains))

  placed-Splits :
      (server_ips : List String) (k : Taken) (d : String) (rest : List String) (item : DomainItem)
      (o : Options)
      → is_resolved item.status ≡ offers server_ips k d
      → item.domain ≡ clean_domain d
      → Splits server_ips k rest o
      → Splits server_ips k (d ∷ rest) (placed item o)
  placed-Splits server_ips k d rest item o status named h =
      elim (Bool-cases (is_resolved item.status)) [
        | inl good ↦
            let offered : offers server_ips k d ≡ true = sym status ∙ good in
            rw (good, offered) (cc (named, h.0), h.1)
        | inr bad ↦
            let refused : offers server_ips k d ≡ false = sym status ∙ bad in
            rw (bad, refused) (h.0, cc (named, h.1))
      ]

  options_of-Splits :
      (server_ips : List String) (k : Taken) (domains : List String)
      → Splits server_ips k domains (options_of getaddrinfo server_ips k domains)
  options_of-Splits server_ips k [] = (refl, refl)
  options_of-Splits server_ips k (d ∷ rest) =
      let (status, named) = classify_domain-offers server_ips k d in
      placed-Splits server_ips k d rest (classify_domain getaddrinfo d server_ips k)
        (options_of getaddrinfo server_ips k rest) status named
        (options_of-Splits server_ips k rest)

  -- domain_options parts the distinct candidates, in their clean forms and in their order: those
  -- that are nobody else's and resolve, and lead to the server where its addresses are known, are
  -- available, and the others are unavailable. What is available is what validate_tunnel_domain
  -- returns for one of them.
  pub domain_options-IsOffered :
      (candidates server_ips : List String) (k : Taken)
      → All
          (IsOffered server_ips k (distinct (map clean_domain candidates)))
          (domain_options getaddrinfo candidates server_ips k).available
        × Splits server_ips k
            (distinct (map clean_domain candidates))
            (domain_options getaddrinfo candidates server_ips k)
  unfolding domain_options
  domain_options-IsOffered candidates server_ips k = (
    options_of-IsOffered server_ips k (distinct (map clean_domain candidates)),
    options_of-Splits server_ips k (distinct (map clean_domain candidates)),
  )
