-- ===== src/Resolver/Query.antt =====
-- resolver.rs, `query_one`: what counts as a DNS answer of a provider.
use detour.Prelude.{
  Bool-cases, List, Option, Option-cases, Text, ap, arith, err, inl, inr, le→leb, lt→ltb, none, ok,
  refl, some, starts_with-append, starts_with→append, true, true_&&, ℕ, ◌++◌, ◌<◌, ◌↔◌, ◌∙◌, ◌≡◌,
  ◌≤◌,
}
use detour.Dns.{Dns, DnsWire}
use detour.Resolver.{
  Http, Reply, ResolveError, Upstream, decoded, dns_message, is_dns, is_success, post_body,
  query_one, read_body, read_reply,
}

module _ (http : Http) (dns : Dns) (wire : DnsWire dns) where
  -- The provider's reply to the query is a success, declares a DNS message, and is one, `m`.
  pub record IsAnswer (u : Upstream http) (query : dns.Message) (net : http.Net) (m : dns.Message)
      : Type 0 where
    pub sent : List ℕ
    pub received : List ℕ
    pub reply : Reply
    pub parameters : Text
    pub encoded : wire.to_vec query ≡ some sent
    pub replied :
        (http.post u.client u.provider.url dns_message dns_message sent net).0 ≡ some reply
    pub success : (200 ≤ reply.status) × (reply.status < 300)
    pub typed : reply.content_type ≡ some (dns_message ++ parameters)
    pub whole : reply.body ≡ some received
    pub message : wire.from_bytes received ≡ some m

  ok_decoded :
      (name : Text) (o : Option dns.Message) (m : dns.Message)
      → decoded http dns wire name o ≡ ok m
      → o ≡ some m
  ok_decoded name none m h = absurd (ground arith)
  ok_decoded name (some x) m h = ground arith

  ok_body :
      (name : Text) (o : Option (List ℕ)) (m : dns.Message)
      → read_body http dns wire name o ≡ ok m
      → (b : List ℕ) × (o ≡ some b) × (wire.from_bytes b ≡ some m)
  ok_body name none m h = absurd (ground arith)
  ok_body name (some b) m h = (b, refl, ok_decoded name (wire.from_bytes b) m h)

  dns_typed : (o : Option Text) → is_dns o ≡ true → (p : Text) × (o ≡ some (dns_message ++ p))
  dns_typed none h = absurd (ground arith)
  dns_typed (some c) h = let (r, e) = starts_with→append c dns_message h in (r, ap some e)

  ok_reply :
      (name : Text) (r : Reply) (m : dns.Message)
      → read_reply http dns wire name (some r) ≡ ok m
      → (200 ≤ r.status)
        × (r.status < 300)
        × (is_dns r.content_type ≡ true)
        × (read_body http dns wire name r.body ≡ ok m)
  unfolding read_reply
  ok_reply name r m h = elim (Bool-cases (is_success r.status)) [
    | inr bad ↦ absurd (ground arith)
    | inl good ↦ elim (Bool-cases (is_dns r.content_type)) [
      | inr bad ↦ absurd (ground arith)
      | inl typed ↦ (ground arith, ground arith, typed, ground arith)
    ]
  ]

  err_ne_ok : {e : ResolveError} {m : dns.Message} → err e ≡ ok m → ⊥
  err_ne_ok h = ground arith

  query_one_sound :
      (u : Upstream http) (query : dns.Message) (net : http.Net) (m : dns.Message)
      → (query_one http dns wire u query net).0 ≡ ok m
      → IsAnswer u query net m
  unfolding query_one post_body
  query_one_sound u query net m h = elim (Option-cases (wire.to_vec query)) [
    | inl bad ↦ absurd (err_ne_ok (rw bad at h))
    | inr (sent, encoded) ↦
        elim (Option-cases (http.post u.client u.provider.url dns_message dns_message sent net).0) [
          | inl bad ↦ absurd (err_ne_ok (unfold read_reply in (rw (encoded, bad) at h)))
          | inr (reply, replied) ↦
              let (low, high, typed, body_) =
                ok_reply u.provider.name reply m (rw (encoded, replied) at h) in
              let (p, type_) = dns_typed reply.content_type typed in
              let (received, whole, message) = ok_body u.provider.name reply.body m body_ in
              record {
                sent = sent;
                received = received;
                reply = reply;
                parameters = p;
                encoded = encoded;
                replied = replied;
                success = (low, high);
                typed = type_;
                whole = whole;
                message = message;
              }
        ]
  ]

  query_one_complete :
      (u : Upstream http) (query : dns.Message) (net : http.Net) (m : dns.Message)
      → IsAnswer u query net m
      → (query_one http dns wire u query net).0 ≡ ok m
  unfolding query_one post_body read_reply
  query_one_complete u query net m a =
      let good : is_success a.reply.status ≡ true =
        true_&& _ _ (le→leb _ _ a.success.0) (lt→ltb _ _ a.success.1) in
      let typed : is_dns a.reply.content_type ≡ true =
        ap is_dns a.typed ∙ starts_with-append dns_message a.parameters in
      rw (a.encoded, a.replied, good, typed, a.whole, a.message) refl

  -- `query_one` gives `m` exactly if the query could be encoded and posted to the provider's URL,
  -- and the reply has a status from 200 to 299, a content type that starts with
  -- `application/dns-message`, and a body that could be read and parses as `m`.
  pub query_one_iff :
      (u : Upstream http) (query : dns.Message) (net : http.Net) (m : dns.Message)
      → ((query_one http dns wire u query net).0 ≡ ok m) ↔ IsAnswer u query net m
  query_one_iff u query net m = (query_one_sound u query net m, query_one_complete u query net m)
