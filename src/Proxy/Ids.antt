-- ===== src/Proxy/Ids.antt =====
-- proxy.rs, `handle`: every answer that the proxy makes itself carries the id of the query.
use detour.Prelude.{List, Option-cases, Result, [], err, inl, inr, none, ok, some, ℕ, ◌∙◌, ◌∷◌, ◌≡◌}
use detour.Policy.{Route, doh, route, system_upstream}
use detour.Dns.{Dns, DnsWire, WireLaws}
use detour.Cache.{Key}
use detour.Resolver.{Http, ResolveError}
use detour.Forwarder.{Udp, UpstreamError}
use detour.Forwarder.Order.{
  FirstReply, Forwarded, forward-Forwarded, replied, unanswered, unconfigured,
}
use detour.Proxy.{
  Proxy, Timing, answer_doh, answer_forwarded, failure_message, follow, handle, handle_message,
  handle_question, servfail,
}

module _ (dns : Dns) (wire : DnsWire dns) (laws : WireLaws dns wire) where
  -- Bytes that a client with this id accepts, or none at all, if the failure message with this id
  -- cannot be encoded.
  pub data HasId (id : ℕ) : List ℕ → Type 0 where
    empty : (c : dns.Code) → wire.to_vec (failure_message dns wire id c) ≡ none → HasId id []
    carries :
        {b : List ℕ} {m : dns.Message} → wire.from_bytes b ≡ some m → wire.id m ≡ id → HasId id b

  id-failure_message : (id : ℕ) (c : dns.Code) → wire.id (failure_message dns wire id c) ≡ id
  unfolding failure_message
  id-failure_message id c = rw (
    laws.id-set_recursion_available, laws.id-set_recursion_desired, laws.id-set_response_code,
    laws.id-set_op_query, laws.id-set_response, laws.id-set_id,
  )

  HasId-servfail : (id : ℕ) (c : dns.Code) → HasId id (servfail dns wire id c)
  unfolding servfail
  HasId-servfail id c = elim (Option-cases (wire.to_vec (failure_message dns wire id c))) [
    | inl none_ ↦ rw none_ (empty c none_)
    | inr (b, e) ↦
        let (m', parsed, same_id) = laws.id-to_vec (failure_message dns wire id c) b e in
        rw e (carries parsed (same_id ∙ id-failure_message id c))
  ]

  module _ (http : Http) (udp : Udp) (same : Discrete (Key dns)) where
    HasId-answer_doh :
        (id : ℕ) (r : Result ResolveError dns.Message)
        → HasId id (answer_doh http udp dns wire same id r).response
    unfolding answer_doh
    HasId-answer_doh id (err e) = HasId-servfail id dns.serv_fail
    HasId-answer_doh id (ok m) = elim (Option-cases (wire.to_vec (wire.set_id m id))) [
      | inl none_ ↦ rw none_ (HasId-servfail id dns.serv_fail)
      | inr (b, e) ↦
          let (m', parsed, same_id) = laws.id-to_vec (wire.set_id m id) b e in
          rw e (carries parsed (same_id ∙ laws.id-set_id m id))
    ]

    -- The answer to a query with an id: the proxy's own, or the reply of a system resolver.
    pub data Replies (p : Proxy http udp dns wire same) (query : List ℕ) (id : ℕ)
        : List ℕ → Type 0 where
      own : {b : List ℕ} → HasId id b → Replies p query id b
      passed_on :
          {b : List ℕ} {net : udp.Net}
          → FirstReply udp query p.servers p.udp_net b net
          → Replies p query id b

    Replies-Forwarded :
        (p : Proxy http udp dns wire same) (query : List ℕ) (id : ℕ)
        (r : Result UpstreamError (List ℕ) × udp.Net)
        → Forwarded udp query p.servers p.udp_net r
        → Replies p query id (answer_forwarded http udp dns wire same id r.0).response
    unfolding answer_forwarded
    Replies-Forwarded p query id r (replied f) = passed_on f
    Replies-Forwarded p query id r (unanswered full f) = own (HasId-servfail id dns.serv_fail)
    Replies-Forwarded p query id r (unconfigured e) = own (HasId-servfail id dns.serv_fail)

    Replies-follow :
        (p : Proxy http udp dns wire same) (t : Timing http udp dns wire same) (query : List ℕ)
        (id : ℕ) (name : dns.Name) (type_ : dns.RecordType) (r : Route)
        → Replies p query id (follow http udp dns wire same p t query id name type_ r).0.response
    unfolding follow
    Replies-follow p t query id name type_ doh = own (HasId-answer_doh id _)
    Replies-follow p t query id name type_ system_upstream =
        Replies-Forwarded p query id _ (forward-Forwarded udp query p.servers p.udp_net)

    -- The answer to a query that parses carries the id of the query, or is empty because a failure
    -- message with this id cannot be encoded, or is the first reply of the resolvers of the system,
    -- passed on as it came. The message library is taken to keep the id through its setters and its wire form.
    pub handle-Replies :
        (p : Proxy http udp dns wire same) (t : Timing http udp dns wire same) (query : List ℕ)
        (m : dns.Message)
        → wire.from_bytes query ≡ some m
        → Replies p query (wire.id m) (handle http udp dns wire same p t query).0
    unfolding handle handle_message handle_question
    handle-Replies p t query m h = rw h (go (wire.queries m))
      where
        go :
            (qs : List (dns.Name × dns.RecordType))
            → Replies p query
                (wire.id m)
                (handle_question http udp dns wire same p t query (wire.id m) qs).0
        go [] = own (HasId-servfail (wire.id m) dns.form_err)
        go ((name, type_) ∷ others) =
            Replies-follow p t query (wire.id m) name type_ (route dns.to_ascii p.policy name)
