-- ===== src/Resolvconf/Recovery.antt =====
-- resolvconf.rs: a takeover or a recovery that stops anywhere is undone by the next start.
use detour.Prelude.{
  Bool, Option, Result, Text, ap, arith, err, false, if◌then◌else◌, none, ok, refl, some, subst,
  suc, sym, true, zero, ℕ, ◌∙◌, ◌≡◌, ◌≤◌,
}
use detour.Resolvconf.{
  Disk, Host, JsonRoundTrip, Machine, Node, ResolvError, TakeoverState, already_active, clean_up,
  execute, file, known_state, link, link_target, missing, process_is_alive, put_back, read_node,
  read_state, read_state_file, reconcile_after_crash, reconcile_state, recovered, restore,
  restore_backup, then_clean,
}

-- `Dead` is what is known of the process of a takeover.
module _ (host : Host) (json : JsonRoundTrip host) (node : Node) (original : Text)
    (Dead : ℕ → Type 0) where
  -- `node` was `resolv.conf`, read as `original`; it is there, or it can be put back.
  pub data Recoverable (d : Disk) : Type 0 where
    untouched : d.resolv ≡ node → d.state ≡ none → Recoverable d
    recorded :
        (s : TakeoverState)
        → d.backup ≡ some original
        → d.state ≡ some (host.to_json s)
        → s.original_symlink_target ≡ link_target node
        → Dead s.pid
        → Recoverable d

  missing_unread : (t : Text) → ◌≡◌ {A = Option Text} none (some t) → ⊥
  missing_unread t e = cc

  false_ne : false ≡ true → ⊥
  false_ne e = cc

  unsome : {a b : Text} → some a ≡ some b → a ≡ b
  unsome e = cc

  -- `original` is what is read at `node`, through its link if it is one.
  module _ (texts : Text → Option Text) (reads : read_node node texts ≡ some original) where
    -- The fields that a recorded takeover has on the disk.
    pub record Recorded (s : TakeoverState) (d : Disk) : Type 0 where
      pub kept : d.backup ≡ some original
      pub noted : d.state ≡ some (host.to_json s)
      pub linked : s.original_symlink_target ≡ link_target node
      pub gone : Dead s.pid

    still : (s : TakeoverState) (d : Disk) → Recorded s d → Recoverable d
    still s d r = recorded s r.kept r.noted r.linked r.gone

    resolv-clean_up :
        (owns : Bool) (n : ℕ) (d : Disk)
        → (execute (clean_up host owns) n d).1.disk.resolv ≡ d.resolv
    unfolding execute
    resolv-clean_up true zero d = refl
    resolv-clean_up true (suc zero) d = refl
    resolv-clean_up true (suc (suc zero)) d = refl
    resolv-clean_up true (suc (suc (suc n))) d = refl
    resolv-clean_up false zero d = refl
    resolv-clean_up false (suc zero) d = refl
    resolv-clean_up false (suc (suc n)) d = refl

    -- The removals at the end of a recovery, however many are done.
    Recoverable-clean_up :
        (owns : Bool) (n : ℕ) (s : TakeoverState) (d : Disk)
        → d.resolv ≡ node
        → Recorded s d
        → Recoverable (execute (clean_up host owns) n d).1.disk
    unfolding execute
    Recoverable-clean_up true zero s d same r = still s d r
    Recoverable-clean_up true (suc zero) s d same r = recorded s r.kept r.noted r.linked r.gone
    Recoverable-clean_up true (suc (suc zero)) s d same r = untouched same refl
    Recoverable-clean_up true (suc (suc (suc n))) s d same r = untouched same refl
    Recoverable-clean_up false zero s d same r = still s d r
    Recoverable-clean_up false (suc zero) s d same r = untouched same refl
    Recoverable-clean_up false (suc (suc n)) s d same r = untouched same refl

    -- Putting `resolv.conf` back: the record stays, and once it is done the node is the old one.
    record PutBack (s : TakeoverState) (n : ℕ) (r : Bool × Machine) : Type 0 where
      record_kept : Recorded s r.1.disk
      back : r.0 ≡ true → r.1.disk.resolv ≡ node
      enough : 2 ≤ n → r.0 ≡ true

    put_back-PutBack :
        (v : Node) (n : ℕ) (s : TakeoverState) (d : Disk)
        → node ≡ v
        → Recorded s d
        → PutBack s n (execute (put_back host (link_target v) original) n d)
    unfolding execute
    put_back-PutBack missing n s d same r = absurd (missing_unread original (rw same at reads))
    put_back-PutBack (file t) zero s d same r = record {
      record_kept = r;
      back = λ e. absurd (false_ne e);
      enough = λ le. absurd (omega (arith, le));
    }
    put_back-PutBack (file t) (suc n) s d same r = record {
      record_kept = record { kept = r.kept; noted = r.noted; linked = r.linked; gone = r.gone };
      back = λ e. ap file (sym (unsome (rw same at reads))) ∙ sym same;
      enough = λ le. refl;
    }
    put_back-PutBack (link t) zero s d same r = record {
      record_kept = r;
      back = λ e. absurd (false_ne e);
      enough = λ le. absurd (omega (arith, le));
    }
    put_back-PutBack (link t) (suc zero) s d same r = record {
      record_kept = record { kept = r.kept; noted = r.noted; linked = r.linked; gone = r.gone };
      back = λ e. absurd (false_ne e);
      enough = λ le. absurd (omega (arith, le));
    }
    put_back-PutBack (link t) (suc (suc n)) s d same r = record {
      record_kept = record { kept = r.kept; noted = r.noted; linked = r.linked; gone = r.gone };
      back = λ e. sym same;
      enough = λ e. refl;
    }

    then_clean-Recoverable :
        (owns : Bool) (n : ℕ) (s : TakeoverState) (r : Bool × Machine)
        → PutBack s n r
        → Recoverable (then_clean host owns r).1.disk
          × (2 ≤ n → (then_clean host owns r).1.disk.resolv ≡ node)
          × (2 ≤ n → (then_clean host owns r).0 ≡ ok tt)
    then_clean-Recoverable owns n s (false, m) b = (
      still s m.disk b.record_kept,
      λ le. absurd (false_ne (b.enough le)),
      λ le. absurd (false_ne (b.enough le)),
    )
    then_clean-Recoverable owns n s (true, m) b = (
      Recoverable-clean_up owns m.allowance s m.disk (b.back refl) b.record_kept,
      λ le. resolv-clean_up owns m.allowance m.disk ∙ b.back refl,
      λ le. refl,
    )

    state-Recorded : (s : TakeoverState) (d : Disk) → Recorded s d → read_state host d ≡ ok (some s)
    unfolding read_state
    state-Recorded s d r = rw (r.noted, json s) refl

    pub restore_noted :
        (s : TakeoverState) (n : ℕ) (d : Disk)
        → Recorded s d
        → restore host (record { disk = d; allowance = n })
          ≡ then_clean host s.wrote_nm_dropin
              (execute (put_back host (link_target node) original) n d)
    unfolding restore
    restore_noted s n d r =
        let m : Machine = record { disk = d; allowance = n } in
        ap (λ b. restore_backup host b m (known_state host (read_state host d))) r.kept
        ∙ ap (λ x. restore_backup host (some original) m (known_state host x))
            (state-Recorded s d r)
        ∙ ap (λ t. then_clean host s.wrote_nm_dropin (execute (put_back host t original) n d))
            r.linked

    pub restore-Recorded :
        (s : TakeoverState) (n : ℕ) (d : Disk)
        → Recorded s d
        → Recoverable (restore host (record { disk = d; allowance = n })).1.disk
          × (2 ≤ n → (restore host (record { disk = d; allowance = n })).1.disk.resolv ≡ node)
          × (2 ≤ n → (restore host (record { disk = d; allowance = n })).0 ≡ ok tt)
    restore-Recorded s n d r =
        rw (restore_noted s n d r)
          (then_clean-Recoverable s.wrote_nm_dropin n s _ (put_back-PutBack node n s d refl r))

    disk-recovered :
        (s : TakeoverState) (r : Result ResolvError (Unit {0}) × Machine)
        → (recovered host s r).1.disk ≡ r.1.disk
    disk-recovered s (err e, m) = refl
    disk-recovered s (ok u, m) = refl

    module _ (sure : (pid : ℕ) → Dead pid → process_is_alive host pid ≡ false) where
      reconcile_noted :
          (s : TakeoverState) (n : ℕ) (d : Disk)
          → Recorded s d
          → (reconcile_after_crash host (record { disk = d; allowance = n })).1.disk
            ≡ (restore host (record { disk = d; allowance = n })).1.disk
      unfolding reconcile_after_crash
      reconcile_noted s n d r =
          let m : Machine = record { disk = d; allowance = n } in
          ap (λ x. (reconcile_state host x m).1.disk) (state-Recorded s d r)
          ∙ ap
              (λ (alive : Bool).
                (if alive
                  then (err (already_active s.pid), m)
                  else recovered host s (restore host m)).1.disk)
              (sure s.pid r.gone)
          ∙ disk-recovered s (restore host m)

      -- The next start, on a disk with an unfinished takeover or recovery: wherever it stops, the
      -- disk can still be recovered, and with two writes or more the old `resolv.conf` is back.
      pub reconcile-Recoverable :
          (n : ℕ) (d : Disk)
          → Recoverable d
          → Recoverable (reconcile_after_crash host (record { disk = d; allowance = n })).1.disk
            × (2 ≤ n
                → (reconcile_after_crash host (record { disk = d; allowance = n })).1.disk.resolv
                  ≡ node)
      unfolding reconcile_after_crash read_state
      reconcile-Recoverable n d (untouched same none_) =
          let m : Machine = record { disk = d; allowance = n } in
          let nothing : (reconcile_after_crash host m).1.disk ≡ d =
            ap (λ x. (reconcile_state host (read_state_file host x) m).1.disk) none_ in
          (
            subst Recoverable (sym nothing) (untouched same none_),
            λ le. ap (λ x. x.resolv) nothing ∙ same,
          )
      reconcile-Recoverable n d (recorded s kept noted linked gone) =
          let r : Recorded s d = record {
            kept = kept;
            noted = noted;
            linked = linked;
            gone = gone;
          } in
          let (safe, back, done) = restore-Recorded s n d r in
          rw (reconcile_noted s n d r) (safe, back)
