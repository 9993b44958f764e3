-- ===== src/Resolvconf/RoundTrip.antt =====
-- resolvconf.rs: a complete takeover and a complete restore, one after the other.
use detour.Net.{IpAddr}
use detour.Prelude.{
  Bool, Option, Text, ap, arith, false, if◌then◌else◌, none, ok, refl, some, suc, true, ℕ, ◌&&◌,
  ◌-◌, ◌∙◌, ◌∷◌, ◌≡◌, ◌≤◌,
}
use detour.Resolvconf.{
  Disk, Host, JsonRoundTrip, Machine, TakeoverState, dropin_body, execute, file, is_none,
  link_target, make_state_dir, managed_body, needs_dropin, new_state, put_back, put_backup,
  put_dropin, read_node, read_state, read_state_file, reconcile_after_crash, reconcile_state,
  redirect, restore, take_over, taken, takeover_writes, then_clean,
}
use detour.Resolvconf.Recovery.{Recorded, restore-Recorded, restore_noted}
use detour.Resolvconf.Restoring.{disk-taken, take_over_free}

abbrev five_and : ℕ → ℕ
five_and k = suc (suc (suc (suc (suc k))))

five_more : (n : ℕ) → 5 ≤ n → (k : ℕ) × (n ≡ five_and k)
five_more n h = (n - 5, omega arith)

-- The drop-in after a takeover, and after its restore.
abbrev written : Bool → Text → Option Text → Option Text
written b body before = if b then some body else before

module _ (host : Host) (json : JsonRoundTrip host) (pid now : ℕ) (listen : IpAddr) (original : Text)
    (d : Disk) (free : d.state ≡ none)
    (reads : read_node d.resolv d.target_text ≡ some original) where
  abbrev takeover : Disk
  takeover = record d {
    resolv = file (managed_body host listen);
    backup = some original;
    state = some (host.to_json (new_state host pid now listen d original));
    nm_dropin = written (needs_dropin d) dropin_body d.nm_dropin;
  }

  all_written :
      (b : Bool) (k : ℕ)
      → (execute
          (make_state_dir
            ∷ put_backup original
            ∷ (if b
                then put_dropin dropin_body ∷ redirect host pid now listen d original
                else redirect host pid now listen d original))
          (five_and k)
          d).1.disk
        ≡ record takeover { nm_dropin = written b dropin_body d.nm_dropin }
  unfolding execute
  all_written true k = refl
  all_written false k = refl

  disk-take_over :
      (k : ℕ)
      → (take_over host pid now listen (record { disk = d; allowance = five_and k })).1.disk
        ≡ takeover
  unfolding takeover_writes
  disk-take_over k =
      ap (λ r. r.1.disk)
        (take_over_free host json pid now listen original d free reads (five_and k))
      ∙ disk-taken host json pid now listen original d free reads _ _
      ∙ all_written (needs_dropin d) k

  cleaned_fields :
      (owns : Bool) (v : Option Text) (k : ℕ) (t : Disk)
      → let r = (then_clean host owns (execute (put_back host v original) (five_and k) t)).1.disk in
        (r.backup ≡ none) × (r.state ≡ none) × (r.nm_dropin ≡ (if owns then none else t.nm_dropin))
  unfolding execute
  cleaned_fields true none k t = (refl, refl, refl)
  cleaned_fields true (some p) k t = (refl, refl, refl)
  cleaned_fields false none k t = (refl, refl, refl)
  cleaned_fields false (some p) k t = (refl, refl, refl)

  dropin_back :
      (nm : Bool) (before : Option Text)
      → (if nm && is_none before then none else written (nm && is_none before) dropin_body before)
        ≡ before
  dropin_back true none = refl
  dropin_back true (some t) = refl
  dropin_back false none = refl
  dropin_back false (some t) = refl

  -- On a disk without a recorded takeover and with a readable `resolv.conf`, a takeover and
  -- then a restore with five writes or more each leave `resolv.conf` and the drop-in of
  -- NetworkManager as they were, and neither a backup nor a state. The JSON reader is taken to
  -- read back what was written.
  pub restore-take_over :
      (n m : ℕ)
      → 5 ≤ n
      → 5 ≤ m
      → let after =
          (restore host (record {
            disk = (take_over host pid now listen (record { disk = d; allowance = n })).1.disk;
            allowance = m;
          })).1.disk in
        (after.resolv ≡ d.resolv)
        × (after.nm_dropin ≡ d.nm_dropin)
        × (after.backup ≡ none)
        × (after.state ≡ none)
  unfolding new_state
  restore-take_over n m le le' =
      let (k, e) = five_more n le in
      let (j, e') = five_more m le' in
      let r : Recorded host json d.resolv original (λ p. Unit {0}) d.target_text reads
          (new_state host pid now listen d original) takeover =
        record { kept = refl; noted = refl; linked = refl; gone = tt } in
      let back =
        restore-Recorded host json d.resolv original (λ p. Unit {0}) d.target_text reads _
          (five_and j) takeover r in
      let fields = cleaned_fields (needs_dropin d) (link_target d.resolv) j takeover in
      let whole =
        ap (λ x. x.1.disk)
          (restore_noted host json d.resolv original (λ p. Unit {0}) d.target_text reads _
            (five_and j) takeover r) in
      rw (e, e', disk-take_over k)
        (
          back.1 (omega arith),
          ap (λ x. x.nm_dropin) whole ∙ fields.2 ∙ dropin_back d.nm_dir d.nm_dropin,
          ap (λ x. x.backup) whole ∙ fields.0,
          ap (λ x. x.state) whole ∙ fields.1,
        )

  all_done :
      (b : Bool) (k : ℕ)
      → (execute
          (make_state_dir
            ∷ put_backup original
            ∷ (if b
                then put_dropin dropin_body ∷ redirect host pid now listen d original
                else redirect host pid now listen d original))
          (five_and k)
          d).0
        ≡ true
  unfolding execute
  all_done true k = refl
  all_done false k = refl

  taken-ok :
      (s : TakeoverState) (r : Bool × Machine)
      → r.0 ≡ true
      → (taken host pid now listen s r).0 ≡ ok s
  taken-ok s (true, m) h = refl
  taken-ok s (false, m) h = absurd (ground arith)

  -- With five writes or more the takeover succeeds, and points `resolv.conf` at the proxy.
  pub take_over-ok :
      (n : ℕ)
      → 5 ≤ n
      → ((take_over host pid now listen (record { disk = d; allowance = n })).0
          ≡ ok (new_state host pid now listen d original))
        × ((take_over host pid now listen (record { disk = d; allowance = n })).1.disk.resolv
            ≡ file (managed_body host listen))
  unfolding takeover_writes
  take_over-ok n le =
      let (k, e) = five_more n le in
      rw e (
        ap (λ r. r.0) (take_over_free host json pid now listen original d free reads (five_and k))
            ∙ taken-ok _ _ (all_done (needs_dropin d) k),
        ap (λ t. t.resolv) (disk-take_over k),
      )

  -- A start finds nothing to recover.
  pub reconcile_after_crash_free :
      (n : ℕ)
      → reconcile_after_crash host (record { disk = d; allowance = n })
        ≡ (ok none, record { disk = d; allowance = n })
  unfolding reconcile_after_crash read_state
  reconcile_after_crash_free n =
      ap (λ x. reconcile_state host (read_state_file host x) (record { disk = d; allowance = n }))
        free
