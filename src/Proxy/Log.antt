-- ===== src/Proxy/Log.antt =====
-- proxy.rs, `QueryLog`: what the live log shows after any number of queries.
use mathlib.Core.List.{append_assoc, append-nil}
use detour.Prelude.{
  Bool-cases, List, [], ap, arith, drop, if◌then◌else◌, inl, inr, leb, leb→le, length,
  length-append, length-drop, refl, reverse, suc, sym, take, ℕ, ◌%◌, ◌++◌, ◌+◌, ◌-◌, ◌<◌, ◌^◌, ◌∙◌,
  ◌∷◌, ◌≡◌, ◌≤◌,
}
use detour.Proxy.{QueryLog, empty_log, log_capacity, push, recent}

module _ {E : Type 0} where
  -- A run of queries, the first one first.
  abbrev pub push_all : QueryLog E → List E → QueryLog E
  push_all log [] = log
  push_all log (e ∷ es) = push_all (push log e) es

  -- The last 500 of a list.
  abbrev pub newest : List E → List E
  newest es = drop (length es - log_capacity) es

  newest_cons : (e : E) (es : List E) → log_capacity ≤ length es → newest (e ∷ es) ≡ newest es
  newest_cons e es h = ap (λ n. drop n (e ∷ es)) (one_more (length es) h)
    where
      one_more : (n : ℕ) → log_capacity ≤ n → suc n - log_capacity ≡ suc (n - log_capacity)
      one_more n le = omega arith

  kept :
      (l : List E) (e : E) (es : List E)
      → length l ≤ log_capacity
      → newest (((if leb log_capacity (length l) then drop 1 l else l) ++ e ∷ []) ++ es)
        ≡ newest (l ++ e ∷ es)
  kept [] e es h = refl
  kept (x ∷ l) e es h = elim (Bool-cases (leb log_capacity (length (x ∷ l)))) [
    | inl full ↦ rw full (
        ap newest (append_assoc l (e ∷ []) es)
        ∙ sym (
            newest_cons x (l ++ e ∷ es) (omega (arith, leb→le _ _ full, length-append l (e ∷ es)))))
    | inr room ↦ rw room (ap newest (append_assoc (x ∷ l) (e ∷ []) es))
  ]

  entries-push_bounded :
      (log : QueryLog E) (e : E)
      → length log.entries ≤ log_capacity
      → length (push log e).entries ≤ log_capacity
  unfolding push
  entries-push_bounded log e h = elim (Bool-cases (leb log_capacity (length log.entries))) [
    | inl full ↦
        rw full
          (omega (arith, length-append (drop 1 log.entries) (e ∷ []), length-drop 1 log.entries))
    | inr room ↦ rw room (ground (arith, length-append log.entries (e ∷ [])))
  ]

  entries-push_all :
      (es : List E) (log : QueryLog E)
      → length log.entries ≤ log_capacity
      → (push_all log es).entries ≡ newest (log.entries ++ es)
  unfolding push
  entries-push_all [] log h =
      let none_over : length log.entries - log_capacity ≡ 0 = omega arith in
      rw (append-nil log.entries, none_over) refl
  entries-push_all (e ∷ es) log h =
      entries-push_all es (push log e) (entries-push_bounded log e h) ∙ kept log.entries e es h

  total-push_all :
      (es : List E) (log : QueryLog E)
      → log.total < 2 ^ 64
      → (push_all log es).total ≡ (log.total + length es) % 2 ^ 64
  unfolding push
  total-push_all [] log h = omega arith
  total-push_all (e ∷ es) log h = total-push_all es (push log e) (omega arith) ∙ omega arith

  -- After any run of queries, the log shows the newest ones first, as many as are asked for of
  -- the last 500, and the total counts all of them, modulo the word size.
  pub recent-push_all :
      (es : List E) (limit : ℕ)
      → (recent (push_all empty_log es) limit ≡ take limit (reverse (newest es)))
        × ((push_all empty_log es).total ≡ length es % 2 ^ 64)
  unfolding recent
  recent-push_all es limit = (
    ap (λ l. take limit (reverse l)) (entries-push_all es empty_log (omega arith)),
    total-push_all es empty_log (omega arith) ∙ ap (λ n. n % 2 ^ 64) (omega arith),
  )
