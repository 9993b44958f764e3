-- ===== src/Dns.antt =====
-- The `hickory-proto` crate as the program uses it: names, records, messages and their wire form.
-- It is a parameter of the model; the laws are what its documentation says of the accessors.
pub mod Sample
use detour.Prelude.{Bool, List, Option, Text, some, ℕ, ◌≡◌}

pub record Dns : Type 1 where
  pub Name : Type 0
  pub RecordType : Type 0
  pub Code : Type 0
  pub Record : Type 0
  pub Message : Type 0
  -- As the hash map of the cache compares its keys, and as `match` compares codes.
  pub name_discrete : Discrete Name
  pub type_discrete : Discrete RecordType
  pub code_discrete : Discrete Code
  pub to_lowercase : Name → Name
  pub to_ascii : Name → Text
  pub no_error : Code
  pub nx_domain : Code
  pub serv_fail : Code
  pub form_err : Code
  pub ttl : Record → ℕ
  pub set_ttl : Record → ℕ → Record
  pub response_code : Message → Code
  pub answers : Message → List Record
  pub name_servers : Message → List Record
  pub with_answers : Message → List Record → Message
  pub with_name_servers : Message → List Record → Message

-- Writing to a part of a record or message changes that part and no other.
pub record DnsLaws (dns : Dns) : Type 0 where
  pub ttl-set_ttl : (r : dns.Record) (n : ℕ) → dns.ttl (dns.set_ttl r n) ≡ n
  pub answers-with_answers :
      (m : dns.Message) (rs : List dns.Record) → dns.answers (dns.with_answers m rs) ≡ rs
  pub answers-with_name_servers :
      (m : dns.Message) (rs : List dns.Record)
      → dns.answers (dns.with_name_servers m rs) ≡ dns.answers m
  pub name_servers-with_answers :
      (m : dns.Message) (rs : List dns.Record)
      → dns.name_servers (dns.with_answers m rs) ≡ dns.name_servers m
  pub name_servers-with_name_servers :
      (m : dns.Message) (rs : List dns.Record) → dns.name_servers (dns.with_name_servers m rs) ≡ rs

-- Building and reading a message, and its wire form.
pub record DnsWire (dns : Dns) : Type 0 where
  pub to_vec : dns.Message → Option (List ℕ)
  pub from_bytes : List ℕ → Option dns.Message
  pub new : dns.Message
  pub set_id : dns.Message → ℕ → dns.Message
  pub set_query : dns.Message → dns.Message
  pub set_op_query : dns.Message → dns.Message
  pub set_recursion_desired : dns.Message → Bool → dns.Message
  pub add_query : dns.Message → dns.Name → dns.RecordType → dns.Message
  pub id : dns.Message → ℕ
  pub queries : dns.Message → List (dns.Name × dns.RecordType)
  pub set_response : dns.Message → dns.Message
  pub set_response_code : dns.Message → dns.Code → dns.Message
  pub set_recursion_available : dns.Message → Bool → dns.Message
  pub set_truncated : dns.Message → Bool → dns.Message
  -- The operation code and the wish for recursion of one message, given to another.
  pub copy_op_code : dns.Message → dns.Message → dns.Message
  pub copy_recursion_desired : dns.Message → dns.Message → dns.Message
  -- The payload that the message's EDNS extension allows, if it has one.
  pub max_payload : dns.Message → Option ℕ
  pub record_type : dns.Record → dns.RecordType
  pub data_text : dns.Record → Option Text
  pub type_a : dns.RecordType
  pub type_aaaa : dns.RecordType
  pub type_cname : dns.RecordType

-- Setting the id sets it, setting anything else keeps it, and the wire form carries it.
pub record WireLaws (dns : Dns) (wire : DnsWire dns) : Type 0 where
  pub id-set_id : (m : dns.Message) (n : ℕ) → wire.id (wire.set_id m n) ≡ n
  pub id-set_op_query : (m : dns.Message) → wire.id (wire.set_op_query m) ≡ wire.id m
  pub id-set_recursion_desired :
      (m : dns.Message) (b : Bool) → wire.id (wire.set_recursion_desired m b) ≡ wire.id m
  pub id-add_query :
      (m : dns.Message) (name : dns.Name) (t : dns.RecordType)
      → wire.id (wire.add_query m name t) ≡ wire.id m
  pub id-set_response : (m : dns.Message) → wire.id (wire.set_response m) ≡ wire.id m
  pub id-set_response_code :
      (m : dns.Message) (c : dns.Code) → wire.id (wire.set_response_code m c) ≡ wire.id m
  pub id-set_recursion_available :
      (m : dns.Message) (b : Bool) → wire.id (wire.set_recursion_available m b) ≡ wire.id m
  pub id-set_truncated : (m : dns.Message) (b : Bool) → wire.id (wire.set_truncated m b) ≡ wire.id m
  pub id-copy_op_code : (m from : dns.Message) → wire.id (wire.copy_op_code m from) ≡ wire.id m
  pub id-copy_recursion_desired :
      (m from : dns.Message) → wire.id (wire.copy_recursion_desired m from) ≡ wire.id m
  pub id-to_vec :
      (m : dns.Message) (b : List ℕ)
      → wire.to_vec m ≡ some b
      → (m' : dns.Message) × (wire.from_bytes b ≡ some m') × (wire.id m' ≡ wire.id m)
