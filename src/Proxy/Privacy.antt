-- ===== src/Proxy/Privacy.antt =====
-- proxy.rs, `handle`: which network a query is put to.
use detour.Prelude.{List, [], ap, inl, inr, none, some, true, ℕ, ◌∙◌, ◌∷◌, ◌≡◌, ◌⊎◌}
use detour.Policy.{Route, doh, normalise, route, system_upstream}
use detour.Policy.Routing.{CoveredBy, Stays, route-Stays, route_doh_iff}
use detour.Dns.{Dns, DnsWire}
use detour.Cache.{Key}
use detour.Resolver.{Http}
use detour.Forwarder.{Udp}
use detour.Proxy.{Proxy, Timing, follow, handle, handle_message, handle_question, log_query}

module _ (http : Http) (udp : Udp) (dns : Dns) (wire : DnsWire dns) (same : Discrete (Key dns))
    (p : Proxy http udp dns wire same) (t : Timing http udp dns wire same) (query : List ℕ) where
  -- The first question of a query asks for `name`.
  pub record Asks (name : dns.Name) : Type 0 where
    pub message : dns.Message
    pub type_ : dns.RecordType
    pub others : List (dns.Name × dns.RecordType)
    pub parses : wire.from_bytes query ≡ some message
    pub first : wire.queries message ≡ (name, type_) ∷ others

  abbrev after : Proxy http udp dns wire same
  after = (handle http udp dns wire same p t query).1

  abbrev followed : dns.Name → dns.RecordType → ℕ → Route → Proxy http udp dns wire same
  followed name type_ id r = (follow http udp dns wire same p t query id name type_ r).1

  handle-Asks :
      (name : dns.Name) (a : Asks name) (r : Route)
      → route dns.to_ascii p.policy name ≡ r
      → (after.http_net ≡ (followed name a.type_ (wire.id a.message) r).http_net)
        × (after.cache ≡ (followed name a.type_ (wire.id a.message) r).cache)
        × (after.udp_net ≡ (followed name a.type_ (wire.id a.message) r).udp_net)
  unfolding handle handle_message handle_question log_query
  handle-Asks name a r e =
      let whole =
        ap (λ o. (handle_message http udp dns wire same p t query o).1) a.parses
        ∙ ap (λ qs. (handle_question http udp dns wire same p t query (wire.id a.message) qs).1)
            a.first in
      let via = λ (r' : Route). followed name a.type_ (wire.id a.message) r' in
      (
        ap (λ x. x.http_net) whole ∙ ap (λ r'. (via r').http_net) e,
        ap (λ x. x.cache) whole ∙ ap (λ r'. (via r').cache) e,
        ap (λ x. x.udp_net) whole ∙ ap (λ r'. (via r').udp_net) e,
      )

  -- A query for a name that must stay local is never put to a DoH provider: neither the network
  -- that they are asked over nor the cache of their answers changes.
  pub handle-local_private :
      (name : dns.Name)
      → Asks name
      → Stays p.policy (normalise dns.to_ascii name)
      → (after.http_net ≡ p.http_net) × (after.cache ≡ p.cache)
  unfolding follow
  handle-local_private name a stays =
      let (net, cache_, other) =
        handle-Asks name a system_upstream
          (unfold route in route-Stays p.policy (normalise dns.to_ascii name) stays) in
      (net, cache_)

  -- A query for a name that no local rule keeps, and that a rule or the default sends to DoH, is
  -- never put to a resolver of the system.
  pub handle-doh_private :
      (name : dns.Name)
      → Asks name
      → ¬ Stays p.policy (normalise dns.to_ascii name)
      → CoveredBy p.policy.force_doh (normalise dns.to_ascii name) ⊎ (p.policy.default_doh ≡ true)
      → after.udp_net ≡ p.udp_net
  unfolding follow
  handle-doh_private name a free why =
      (handle-Asks name a doh ((route_doh_iff dns.to_ascii p.policy name).1 (free, why))).2

  -- What cannot be parsed, or asks nothing, changes nothing at all.
  pub handle-malformed :
      (wire.from_bytes query ≡ none)
        ⊎ ((m : dns.Message) × (wire.from_bytes query ≡ some m) × (wire.queries m ≡ []))
      → after ≡ p
  unfolding handle handle_message handle_question
  handle-malformed (inl h) = ap (λ o. (handle_message http udp dns wire same p t query o).1) h
  handle-malformed (inr (m, h, none_)) =
      ap (λ o. (handle_message http udp dns wire same p t query o).1) h
      ∙ ap (λ qs. (handle_question http udp dns wire same p t query (wire.id m) qs).1) none_
