-- ===== src/Proxy.antt =====
-- crates/dns-helper/src/proxy.rs: one query from its bytes to the bytes of its answer, and the log
-- of queries. The socket loops around `handle` are not modelled.
pub mod Log
pub mod Privacy
pub mod Ids
pub mod Truncation
mod Examples
use detour.Prelude.{
  Bool, List, Option, Result, Text, [], drop, err, false, filter_map, if◌then◌else◌, leb, length,
  max, min, none, ok, reverse, some, take, true, ℕ, ◌%◌, ◌*◌, ◌++◌, ◌+◌, ◌^◌, ◌∷◌,
}
use detour.Net.{SocketAddr}
use detour.Policy.{Policy, Route, doh, route, system_upstream}
use detour.Dns.{Dns, DnsWire}
use detour.Cache.{Cache, Key, new}
use detour.Resolver.{Http, ResolveError, Upstream, resolve}
use detour.Forwarder.{Udp, UpstreamError, forward}

abbrev pub max_udp : ℕ
max_udp = 4096

abbrev pub log_capacity : ℕ
log_capacity = 500

-- What a query came to, which the log prints.
pub data Outcome (Code : Type 0) : Type 0 where
  answered : Code → Outcome Code
  encode_error forwarded : Outcome Code
  resolve_failed : ResolveError → Outcome Code
  forward_failed : UpstreamError → Outcome Code

pub record QueryLogEntry (dns : Dns) : Type 0 where
  pub name : dns.Name
  pub record_type : dns.RecordType
  pub route : Route
  pub outcome : Outcome dns.Code
  pub elapsed_ms : ℕ
  pub answers : List Text

-- The newest entry is the last one; the total is an `AtomicU64`.
pub record QueryLog (E : Type 0) : Type 0 where
  pub entries : List E
  pub total : ℕ

module _ {E : Type 0} where
  abbrev pub empty_log : QueryLog E
  empty_log = record { entries = []; total = 0 }

  unfoldable pub push : QueryLog E → E → QueryLog E
  push log e = record {
    entries =
        (if leb log_capacity (length log.entries) then drop 1 log.entries else log.entries)
        ++ e ∷ [];
    total = (log.total + 1) % 2 ^ 64;
  }

  -- `iter().rev().take(limit)`
  unfoldable pub recent : QueryLog E → ℕ → List E
  recent log limit = take limit (reverse log.entries)

module _ (dns : Dns) (wire : DnsWire dns) where
  abbrev wanted : dns.RecordType → Bool
  wanted t = elim (dns.type_discrete t wire.type_a) [
    | yes a ↦ true
    | no a ↦ elim (dns.type_discrete t wire.type_aaaa) [
      | yes b ↦ true
      | no b ↦ elim (dns.type_discrete t wire.type_cname) [ yes c ↦ true | no c ↦ false ]
    ]
  ]

  abbrev describe_record : dns.Record → Option Text
  describe_record r = if wanted (wire.record_type r) then wire.data_text r else none

  -- `filter` and `filter_map` in one pass.
  unfoldable pub describe_answers : dns.Message → List Text
  describe_answers m = filter_map describe_record (dns.answers m)

  abbrev pub or_empty : Option (List ℕ) → List ℕ
  or_empty none = []
  or_empty (some b) = b

  unfoldable pub failure_message : ℕ → dns.Code → dns.Message
  failure_message id code =
      let m = wire.set_op_query (wire.set_response (wire.set_id wire.new id)) in
      wire.set_recursion_available (wire.set_recursion_desired (wire.set_response_code m code) true)
        true

  unfoldable pub servfail : ℕ → dns.Code → List ℕ
  unfolding failure_message
  servfail id code = or_empty (wire.to_vec (failure_message id code))

  abbrev raw_id : List ℕ → ℕ
  raw_id (hi ∷ lo ∷ rest) = hi * 256 + lo
  raw_id _ = 0

  unfoldable pub servfail_from_raw : List ℕ → List ℕ
  unfolding servfail
  servfail_from_raw query = servfail (raw_id query) dns.form_err

  abbrev payload_of : Option dns.Message → Option ℕ
  payload_of none = none
  payload_of (some m) = wire.max_payload m

  abbrev or_512 : Option ℕ → ℕ
  or_512 none = 512
  or_512 (some n) = n

  -- `.unwrap_or(512).clamp(512, MAX_UDP)`
  unfoldable pub advertised : List ℕ → ℕ
  advertised query = min (max (or_512 (payload_of (wire.from_bytes query))) 512) max_udp

  abbrev add_queries : List (dns.Name × dns.RecordType) → dns.Message → dns.Message
  add_queries [] m = m
  add_queries ((name, t) ∷ qs) m = add_queries qs (wire.add_query m name t)

  unfoldable pub truncated : dns.Message → dns.Message
  truncated msg =
      let m₁ = wire.set_response (wire.set_id wire.new (wire.id msg)) in
      let m₂ = wire.set_response_code (wire.copy_op_code m₁ msg) (dns.response_code msg) in
      let m₃ = wire.set_recursion_available (wire.copy_recursion_desired m₂ msg) true in
      add_queries (wire.queries msg) (wire.set_truncated m₃ true)

  abbrev encoded_or : List ℕ → Option (List ℕ) → List ℕ
  encoded_or response none = response
  encoded_or response (some b) = b

  abbrev truncate_parsed : List ℕ → Option dns.Message → List ℕ
  truncate_parsed response none = response
  truncate_parsed response (some msg) = encoded_or response (wire.to_vec (truncated msg))

  unfoldable pub truncate_if_needed : List ℕ → List ℕ → List ℕ
  unfolding advertised truncated
  truncate_if_needed response query =
      if leb (length response) (advertised query)
      then response
      else truncate_parsed response (wire.from_bytes response)

module _ (http : Http) (udp : Udp) (dns : Dns) (wire : DnsWire dns)
    (same : Discrete (Key dns)) where
  -- The parts of the proxy that a query reads and changes, with the state of the networks.
  pub record Proxy : Type 0 where
    pub upstreams : List (Upstream http)
    pub cache : Cache (Key dns) dns.Message
    pub servers : List SocketAddr
    pub policy : Policy
    pub log : QueryLog (QueryLogEntry dns)
    pub http_net : http.Net
    pub udp_net : udp.Net

  -- When the query is read, when it is answered, and what the other tasks do to the cache between.
  pub record Timing : Type 0 where
    pub asked : ℕ
    pub answered_at : ℕ
    pub elapsed_ms : ℕ
    pub meanwhile : Cache (Key dns) dns.Message → Cache (Key dns) dns.Message

  -- What one branch of the `match route` gives: the bytes, the outcome and the described answers.
  pub record Answer : Type 0 where
    pub response : List ℕ
    pub outcome : Outcome dns.Code
    pub answers : List Text

  abbrev encode_doh : ℕ → dns.Message → Option (List ℕ) → Answer
  encode_doh id m (some b) = record {
    response = b;
    outcome = answered (dns.response_code m);
    answers = describe_answers dns wire m;
  }
  encode_doh id m none = record {
    response = servfail dns wire id dns.serv_fail;
    outcome = encode_error;
    answers = [];
  }

  unfoldable pub answer_doh : ℕ → Result ResolveError dns.Message → Answer
  unfolding servfail describe_answers
  answer_doh id (ok m) = let m' = wire.set_id m id in encode_doh id m' (wire.to_vec m')
  answer_doh id (err e) = record {
    response = servfail dns wire id dns.serv_fail;
    outcome = resolve_failed e;
    answers = [];
  }

  abbrev describe_parsed : Option dns.Message → List Text
  describe_parsed none = []
  describe_parsed (some m) = describe_answers dns wire m

  unfoldable pub answer_forwarded : ℕ → Result UpstreamError (List ℕ) → Answer
  unfolding servfail describe_answers
  answer_forwarded id (ok b) = record {
    response = b;
    outcome = forwarded;
    answers = describe_parsed (wire.from_bytes b);
  }
  answer_forwarded id (err e) = record {
    response = servfail dns wire id dns.serv_fail;
    outcome = forward_failed e;
    answers = [];
  }

  unfoldable pub log_query : Proxy → Timing → dns.Name → dns.RecordType → Route → Answer → Proxy
  unfolding push
  log_query p t name type_ r a = record p {
    log = push p.log (record {
      name = name;
      record_type = type_;
      route = r;
      outcome = a.outcome;
      elapsed_ms = t.elapsed_ms;
      answers = a.answers;
    });
  }

  -- `match route`: the answer and the proxy after it, before the query is logged.
  unfoldable pub follow :
      Proxy → Timing → List ℕ → ℕ → dns.Name → dns.RecordType → Route → Answer × Proxy
  unfolding answer_doh answer_forwarded resolve forward
  follow p t query id name type_ doh =
      let r =
        resolve http dns wire same (record { upstreams = p.upstreams; cache = p.cache }) name type_
          p.http_net t.asked t.answered_at t.meanwhile in
      (answer_doh id r.result, record p { cache = r.cache; http_net = r.net })
  follow p t query id name type_ system_upstream =
      let r = forward udp p.servers query p.udp_net in
      (answer_forwarded id r.0, record p { udp_net = r.1 })

  unfoldable pub handle_question :
      Proxy → Timing → List ℕ → ℕ → List (dns.Name × dns.RecordType) → List ℕ × Proxy
  unfolding follow log_query servfail route
  handle_question p t query id [] = (servfail dns wire id dns.form_err, p)
  handle_question p t query id ((name, type_) ∷ others) =
      let r = route dns.to_ascii p.policy name in
      let followed = follow p t query id name type_ r in
      (followed.0.response, log_query followed.1 t name type_ r followed.0)

  unfoldable pub handle_message : Proxy → Timing → List ℕ → Option dns.Message → List ℕ × Proxy
  unfolding handle_question servfail_from_raw
  handle_message p t query none = (servfail_from_raw dns wire query, p)
  handle_message p t query (some m) = handle_question p t query (wire.id m) (wire.queries m)

  unfoldable pub handle : Proxy → Timing → List ℕ → List ℕ × Proxy
  unfolding handle_message
  handle p t query = handle_message p t query (wire.from_bytes query)
