-- ===== src/Resolvconf/Restoring.antt =====
-- resolvconf.rs: the writes of a takeover in order, and what undoes them.
use detour.Net.{IpAddr}
use detour.Prelude.{
  Bool, Text, ap, arith, false, if◌then◌else◌, none, refl, some, subst, suc, sym, true, zero, ℕ,
  ◌∙◌, ◌∷◌, ◌≡◌, ◌≤◌,
}
use detour.Resolvconf.{
  Disk, Host, JsonRoundTrip, Machine, TakeoverState, dropin_body, execute, make_state_dir,
  needs_dropin, new_state, process_is_alive, put_backup, put_dropin, read_node, read_state,
  read_state_file, reconcile_after_crash, reconcile_state, redirect, take_fresh, take_known,
  take_original, take_over, taken, takeover_writes,
}
use detour.Resolvconf.Recovery.{Recoverable, reconcile-Recoverable, recorded, untouched}

module _ (host : Host) (json : JsonRoundTrip host) (pid now : ℕ) (listen : IpAddr) (original : Text)
    (d : Disk) (free : d.state ≡ none)
    (reads : read_node d.resolv d.target_text ≡ some original) where
  abbrev ours : TakeoverState
  ours = new_state host pid now listen d original

  abbrev done : ℕ → Bool × Machine
  done n = execute (takeover_writes host pid now listen d original) n d

  pub take_over_free :
      (n : ℕ)
      → take_over host pid now listen (record { disk = d; allowance = n })
        ≡ taken host pid now listen ours (done n)
  unfolding take_over take_fresh read_state
  take_over_free n =
      let m : Machine = record { disk = d; allowance = n } in
      ap (λ x. take_known host pid now listen (read_state_file host x) m) free
      ∙ ap (λ o. take_original host pid now listen o m) reads

  pub disk-taken :
      (s : TakeoverState) (r : Bool × Machine) → (taken host pid now listen s r).1.disk ≡ r.1.disk
  disk-taken s (true, m) = refl
  disk-taken s (false, m) = refl

  module _ (gone : process_is_alive host pid ≡ false) where
    -- The writes stop after any number of them.
    writes-Recoverable :
        (b : Bool) (n : ℕ)
        → Recoverable host json d.resolv original
            (λ p. process_is_alive host p ≡ false)
            (execute
              (make_state_dir
                ∷ put_backup original
                ∷ (if b
                    then put_dropin dropin_body ∷ redirect host pid now listen d original
                    else redirect host pid now listen d original))
              n
              d).1.disk
    unfolding execute new_state
    writes-Recoverable b zero = untouched refl free
    writes-Recoverable b (suc zero) = untouched refl free
    writes-Recoverable true (suc (suc zero)) = untouched refl free
    writes-Recoverable true (suc (suc (suc zero))) = untouched refl free
    writes-Recoverable true (suc (suc (suc (suc zero)))) = recorded ours refl refl refl gone
    writes-Recoverable true (suc (suc (suc (suc (suc n))))) = recorded ours refl refl refl gone
    writes-Recoverable false (suc (suc zero)) = untouched refl free
    writes-Recoverable false (suc (suc (suc zero))) = recorded ours refl refl refl gone
    writes-Recoverable false (suc (suc (suc (suc n)))) = recorded ours refl refl refl gone

    take_over-Recoverable :
        (n : ℕ)
        → Recoverable host json d.resolv original
            (λ p. process_is_alive host p ≡ false)
            (take_over host pid now listen (record { disk = d; allowance = n })).1.disk
    unfolding takeover_writes
    take_over-Recoverable n =
        subst (Recoverable host json d.resolv original (λ p. process_is_alive host p ≡ false))
          (sym (ap (λ r. r.1.disk) (take_over_free n) ∙ disk-taken ours (done n)))
          (writes-Recoverable (needs_dropin d) n)

    -- On a disk without a recorded takeover and with a readable `resolv.conf`, a takeover stops
    -- after any number of writes and its helper dies, the process being gone afterwards; the next
    -- start stops after any number of writes too; a start that can do two writes or more then
    -- leaves `resolv.conf` as it was before the takeover, a file with its text or a link to its
    -- target. The JSON reader is taken to read back what was written.
    pub crashes-undone :
        (n k m : ℕ)
        → 2 ≤ m
        → (reconcile_after_crash host (record {
          disk =
              (reconcile_after_crash host (record {
                disk = (take_over host pid now listen (record { disk = d; allowance = n })).1.disk;
                allowance = k;
              })).1.disk;
          allowance = m;
        })).1.disk.resolv
          ≡ d.resolv
    crashes-undone n k m le =
        let first = take_over-Recoverable n in
        let second =
          reconcile-Recoverable host json d.resolv original (λ p. process_is_alive host p ≡ false)
            d.target_text reads (λ p g. g) k _ first in
        (reconcile-Recoverable host json d.resolv original (λ p. process_is_alive host p ≡ false)
            d.target_text reads (λ p g. g) m _ second.0).1
          le

  three_writes :
      (b : Bool)
      → b ≡ true
      → (execute
          (make_state_dir
            ∷ put_backup original
            ∷ (if b
                then put_dropin dropin_body ∷ redirect host pid now listen d original
                else redirect host pid now listen d original))
          3
          d).1.disk
        ≡ record d { backup = some original; nm_dropin = some dropin_body }
  unfolding execute
  three_writes true h = refl
  three_writes false h = absurd (ground arith)

  -- A crash can leave a setting of NetworkManager behind: on a disk without a recorded takeover and
  -- with a readable `resolv.conf`, a takeover that has to write the drop-in of NetworkManager and
  -- stops after it, before the write that would record it, leaves the drop-in on the disk, and the
  -- next start does not remove it, however many writes it may do.
  pub crash-leaves_dropin :
      (m : ℕ)
      → needs_dropin d ≡ true
      → (reconcile_after_crash host (record {
        disk = (take_over host pid now listen (record { disk = d; allowance = 3 })).1.disk;
        allowance = m;
      })).1.disk.nm_dropin
        ≡ some dropin_body
  unfolding takeover_writes reconcile_after_crash read_state
  crash-leaves_dropin m needs =
      let stopped = (take_over host pid now listen (record { disk = d; allowance = 3 })).1.disk in
      let left : stopped ≡ record d { backup = some original; nm_dropin = some dropin_body } =
        ap (λ r. r.1.disk) (take_over_free 3)
        ∙ disk-taken ours (done 3)
        ∙ three_writes (needs_dropin d) needs in
      let unrecorded : stopped.state ≡ none = ap (λ x. x.state) left ∙ free in
      ap
        (λ x.
          (reconcile_state host (read_state_file host x)
            (record { disk = stopped; allowance = m })).1.disk.nm_dropin)
        unrecorded
      ∙ ap (λ x. x.nm_dropin) left
