-- ===== src/Desktop/Started.antt =====
-- src-tauri/src/main.rs, `start_protection`: when it says that protection was started.
use detour.Prelude.{
  Bool, Bool-cases, Option, Option-cases, Result, Text, ap, arith, err, false, inl, inr, none, ok,
  refl, some, suc, sym, true, zero, ℕ, ◌<◌, ◌↔◌, ◌∙◌, ◌≡◌,
}
use detour.Desktop.{
  DesktopError, StartOutcome, System, helper_path, run_line, start_helper, start_protection,
  wait_active,
}

module _ {W E : Type 0} (sys : System W E) where
  -- The state of the machine after a round of the wait.
  abbrev looked : W → W
  looked w = (sys.get_status (sys.elapse w)).1

  abbrev next : W → W
  next w = (sys.try_wait (looked w)).1

  abbrev ShowsActive : W → Type 0
  ShowsActive w = (sys.get_status (sys.elapse w)).0.active ≡ true

  -- In each of `k` rounds from `w` on, which end in `w'`, the helper was neither active nor ended.
  pub data Quiet : ℕ → W → W → Type 0 where
    no_round : {w : W} → Quiet zero w w
    one_round :
        {k : ℕ} {w w' : W}
        → (sys.get_status (sys.elapse w)).0.active ≡ false
        → (sys.try_wait (looked w)).0 ≡ none
        → Quiet k (next w) w'
        → Quiet (suc k) w w'

  -- Within `n` rounds from `w` on the helper is seen to be active, before its process is seen to end.
  pub record BecomesActive (n : ℕ) (w : W) : Type 0 where
    pub rounds : ℕ
    pub at : W
    pub in_time : rounds < n
    pub quiet : Quiet rounds w at
    pub shown : ShowsActive at

  said_false : {A : Type 0} → false ≡ true → A
  said_false h = absurd (false_ne h)
    where
      false_ne : false ≡ true → ⊥
      false_ne k = cc

  quiet_round :
      (n : ℕ) (w : W)
      → (sys.get_status (sys.elapse w)).0.active ≡ false
      → (sys.try_wait (looked w)).0 ≡ none
      → wait_active sys (suc n) w ≡ wait_active sys n (next w)
  unfolding wait_active
  quiet_round n w inactive running = rw (wait_active, inactive, running) refl

  ended_round :
      (n : ℕ) (w : W) (code : Option ℕ)
      → (sys.get_status (sys.elapse w)).0.active ≡ false
      → (sys.try_wait (looked w)).0 ≡ some code
      → (wait_active sys (suc n) w).0.started ≡ false
  unfolding wait_active
  ended_round n w code inactive ended = rw (wait_active, inactive, ended) refl

  later :
      {n : ℕ} {w : W}
      → (sys.get_status (sys.elapse w)).0.active ≡ false
      → (sys.try_wait (looked w)).0 ≡ none
      → BecomesActive n (next w)
      → BecomesActive (suc n) w
  later inactive running b = record {
    rounds = suc b.rounds;
    at = b.at;
    in_time = ground (arith, b.in_time);
    quiet = one_round inactive running b.quiet;
    shown = b.shown;
  }

  wait_active→BecomesActive :
      (n : ℕ) (w : W) → (wait_active sys n w).0.started ≡ true → BecomesActive n w
  unfolding wait_active
  wait_active→BecomesActive zero w h = said_false h
  wait_active→BecomesActive (suc n) w h =
      elim (Bool-cases (sys.get_status (sys.elapse w)).0.active) [
        | inl active ↦ record {
          rounds = zero;
          at = w;
          in_time = omega arith;
          quiet = no_round;
          shown = active;
        }
        | inr inactive ↦ elim (Option-cases (sys.try_wait (looked w)).0) [
          | inl running ↦ later inactive running (
              wait_active→BecomesActive n (next w)
                (sym (ap (λ r. r.0.started) (quiet_round n w inactive running)) ∙ h))
          | inr (code, ended) ↦ said_false (sym (ended_round n w code inactive ended) ∙ h)
        ]
      ]

  quiet→started :
      (n : ℕ) {k : ℕ} {w w' : W}
      → Quiet k w w'
      → ShowsActive w'
      → k < n
      → (wait_active sys n w).0.started ≡ true
  unfolding wait_active
  quiet→started zero q shown below = absurd (omega (arith, below))
  quiet→started (suc n) no_round shown below = rw (wait_active, shown) refl
  quiet→started (suc n) (one_round {w = w} inactive running q) shown below =
      ap (λ r. r.0.started) (quiet_round n w inactive running)
      ∙ quiet→started n q shown (omega (arith, below))

  pub wait_active-started_iff :
      (n : ℕ) (w : W) → ((wait_active sys n w).0.started ≡ true) ↔ BecomesActive n w
  wait_active-started_iff n w =
      (wait_active→BecomesActive n w, λ b. quiet→started n b.quiet b.shown b.in_time)

  -- A command that does not fail and says that protection was started.
  abbrev pub SaysStarted : Result DesktopError StartOutcome → Type 0
  SaysStarted (err e) = ⊥
  SaysStarted (ok o) = o.started ≡ true

  module _ (profile : Option Text) (w : W) where
    abbrev w1 : W
    w1 = (sys.get_status w).1

    abbrev spawning : Text → Text → Bool × W
    spawning helper config = sys.spawn (run_line helper config profile) w1

    -- Protection was not active, the helper and the configuration were found, `pkexec` was started
    -- with them, and the helper became active within the hundred rounds of the wait.
    pub record WasStarted : Type 0 where
      pub helper : Text
      pub config : Text
      pub idle : (sys.get_status w).0.active ≡ false
      pub found : helper_path sys w1 ≡ some helper
      pub configured : sys.config_path w1 ≡ some config
      pub spawned : (spawning helper config).0 ≡ true
      pub becomes : BecomesActive 100 (spawning helper config).1

    started→WasStarted : SaysStarted (start_protection sys profile w).0 → WasStarted
    unfolding start_protection start_helper
    started→WasStarted h = elim (Bool-cases (sys.get_status w).0.active) [
      | inl active ↦ said_false (rw (start_protection, active) at h)
      | inr inactive ↦ elim (Option-cases (helper_path sys w1)) [
        | inl missing ↦ absurd (rw (start_protection, inactive, missing) at h)
        | inr (helper_, present) ↦ elim (Option-cases (sys.config_path w1)) [
          | inl unset ↦ absurd (rw (start_protection, inactive, present, unset) at h)
          | inr (config_, set) ↦ elim (Bool-cases (spawning helper_ config_).0) [
            | inr refused_ ↦
                absurd (rw (start_protection, inactive, present, set, start_helper, refused_) at h)
            | inl ran_ ↦ record {
              helper = helper_;
              config = config_;
              idle = inactive;
              found = present;
              configured = set;
              spawned = ran_;
              becomes =
                  wait_active→BecomesActive 100 (spawning helper_ config_).1
                    (rw (start_protection, inactive, present, set, start_helper, ran_) at h);
            }
          ]
        ]
      ]
    ]

    -- `start_protection` says that protection was started exactly if it was not active, the helper
    -- and the configuration were found, `pkexec` could be started on them, and in one of the hundred
    -- rounds that follow the status is active, in no earlier round of which it was, or the process
    -- was seen to have ended.
    pub start_protection-started_iff : SaysStarted (start_protection sys profile w).0 ↔ WasStarted
    unfolding start_protection start_helper
    start_protection-started_iff = (
      started→WasStarted,
      λ s.
          rw (start_protection, s.idle, s.found, s.configured, start_helper, s.spawned)
            ((wait_active-started_iff 100 (spawning s.helper s.config).1).1 s.becomes),
    )
