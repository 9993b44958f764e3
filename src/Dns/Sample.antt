-- ===== src/Dns/Sample.antt =====
-- A small DNS library for examples. A name is a number, whose hundreds are its spelling in upper
-- and lower case, and whose text is `a.` and a letter; a record is its time to live.
use detour.Prelude.{
  List, Option, [], bytes, map, none, refl, some, ℕ, ℕ_discrete, ◌%◌, ◌++◌, ◌+◌, ◌∷◌, ◌≡◌,
}
use detour.Dns.{Dns, DnsLaws, DnsWire, WireLaws}

pub record Packet : Type 0 where
  pub number : ℕ
  pub code : ℕ
  pub sections : List ℕ × List ℕ

abbrev pub sample : Dns
sample = record {
  Name = ℕ;
  RecordType = ℕ;
  Code = ℕ;
  Record = ℕ;
  Message = Packet;
  name_discrete = ℕ_discrete;
  type_discrete = ℕ_discrete;
  code_discrete = ℕ_discrete;
  to_lowercase = λ n. n % 100;
  to_ascii = λ n. bytes "a." ++ (b'a' + n % 26) ∷ [];
  no_error = 0;
  nx_domain = 3;
  serv_fail = 2;
  form_err = 1;
  ttl = λ r. r;
  set_ttl = λ r n. n;
  response_code = λ m. m.code;
  answers = λ m. m.sections.0;
  name_servers = λ m. m.sections.1;
  with_answers = λ m rs. record m { sections = (rs, m.sections.1) };
  with_name_servers = λ m rs. record m { sections = (m.sections.0, rs) };
}

pub sample-DnsLaws : DnsLaws sample
sample-DnsLaws = record {
  ttl-set_ttl = λ r n. refl;
  answers-with_answers = λ m rs. refl;
  answers-with_name_servers = λ m rs. refl;
  name_servers-with_answers = λ m rs. refl;
  name_servers-with_name_servers = λ m rs. refl;
}

-- The wire form of a message is its id, its code and its answers; a query asks for the names whose
-- numbers stand as its answers.
abbrev pub sample_wire : DnsWire sample
sample_wire = record {
  to_vec = λ m. some (m.number ∷ m.code ∷ m.sections.0);
  from_bytes = read;
  new = record { number = 0; code = 0; sections = ([], []) };
  set_id = λ m n. record m { number = n };
  set_query = λ m. m;
  set_op_query = λ m. m;
  set_recursion_desired = λ m b. m;
  add_query = λ m name type_. m;
  id = λ m. m.number;
  queries = λ m. map (λ n. (n, 1)) m.sections.0;
  set_response = λ m. m;
  set_response_code = λ m c. record m { code = c };
  set_recursion_available = λ m b. m;
  set_truncated = λ m b. m;
  copy_op_code = λ m from. m;
  copy_recursion_desired = λ m from. m;
  max_payload = λ m. none;
  record_type = λ r. 1;
  data_text = λ r. some (r ∷ []);
  type_a = 1;
  type_aaaa = 28;
  type_cname = 5;
}
  where
    read : List ℕ → Option Packet
    read (n ∷ c ∷ rs) = some (record { number = n; code = c; sections = (rs, []) })
    read _ = none

-- A NoError answer with two records, of 60 and 300 seconds.
abbrev pub two_records : Packet
two_records = record { number = 0; code = 0; sections = (60 ∷ 300 ∷ [], []) }

pub sample-WireLaws : WireLaws sample sample_wire
sample-WireLaws = record {
  id-set_id = λ m n. refl;
  id-set_op_query = λ m. refl;
  id-set_recursion_desired = λ m b. refl;
  id-add_query = λ m name t. refl;
  id-set_response = λ m. refl;
  id-set_response_code = λ m c. refl;
  id-set_recursion_available = λ m b. refl;
  id-set_truncated = λ m b. refl;
  id-copy_op_code = λ m from. refl;
  id-copy_recursion_desired = λ m from. refl;
  id-to_vec = λ m b e. (
    record { number = m.number; code = m.code; sections = (m.sections.0, []) },
    rw (← unsome e) refl,
    refl,
  );
}
  where
    unsome : {a b : List ℕ} → some a ≡ some b → a ≡ b
    unsome e = cc
