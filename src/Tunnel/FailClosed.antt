-- ===== src/Tunnel/FailClosed.antt =====
-- Packets of the slice are marked only while marked packets have a route that fails closed.
use detour.Tunnel.{WgConfig}
use detour.Prelude.{
  All, Any, Bool, Bool-cases, List, Result, Result-cases, Text, [], bytes, err, err_ne_ok, false,
  get_or, here, inl, inr, ok, refl, some, sym, there, true, ℕ, ◌++◌, ◌∷◌, ◌≡◌,
}
use detour.Tunnel.Steps.{
  Step, add_rule, add_rule_v6, add_unreachable, add_unreachable_v6, link_steps, load_rules,
  nft_ruleset, optional_step, step, up_steps,
}
use detour.Tunnel.Kernel.{
  CanClear, FailsClosed, IsNetwork, KernelLaws, RuleGone, additions, failed-unsucceeded,
  link-IsNetwork, required_ok,
}
use detour.Tunnel.Cleared.{At, Closed, Off-FailsClosed, down-NoRule, down-Off, network-Off}
use detour.Tunnel.Bringup.{
  Io, Machine, Ran, UpError, Written, cut_short, down, forget_key, install, not_opened, run,
  run_all, setconf_text, step_result, up, whole, with_text, write_nft, write_setconf,
}

module _ {W : Type 0} (exec : List Text → W → Ran × W) (marked unreachable ruled : W → Bool)
    (nft_path : Text) (laws : KernelLaws exec marked unreachable ruled nft_path) where
  abbrev Shut : W → Type 0
  Shut w = Closed exec marked unreachable ruled nft_path laws w

  abbrev Unmarked : W → Type 0
  Unmarked w = marked w ≡ false

  abbrev Routed : W → Type 0
  Routed w = (marked w ≡ false) × (unreachable w ≡ true)

  -- Before and after the rules are loaded.
  abbrev Armed : W → Type 0
  Armed w = (marked w ≡ false) × (unreachable w ≡ true) × (ruled w ≡ true)

  abbrev Ready : W → Type 0
  Ready w = (unreachable w ≡ true) × (ruled w ≡ true)

  abbrev Holds : (W → Type 0) → Machine W → Type 0
  Holds P m = At exec marked unreachable ruled nft_path laws P m

  shut : (w : W) → Unmarked w → Shut w
  shut w h = Off-FailsClosed exec marked unreachable ruled nft_path laws w h

  -- What commands lead to: every world on the way fails closed, `Q` holds if they all succeed, and
  -- nothing is marked if one does not.
  abbrev Leads : (W → Type 0) → List Step → (W → Type 0) → Type 0
  Leads P ss Q =
      (m : Machine W)
      → Holds P m
      → All Shut (run_all exec ss m).1.seen
        × ((run_all exec ss m).0 ≡ ok tt → Q (run_all exec ss m).1.world)
        × ((e : UpError) → (run_all exec ss m).0 ≡ err e → Unmarked (run_all exec ss m).1.world)

  -- The same of one command.
  abbrev Does : (W → Type 0) → Step → (W → Type 0) → Type 0
  Does P s Q =
      (w : W)
      → P w
      → Shut (exec s.argv w).1
        × (step_result s (exec s.argv w).0 ≡ ok tt → Q (exec s.argv w).1)
        × ((e : UpError) → step_result s (exec s.argv w).0 ≡ err e → Unmarked (exec s.argv w).1)

  Leads-nil : (P : W → Type 0) → Leads P [] P
  unfolding run_all
  Leads-nil P m at = (at.1, λ e. at.0, λ e h. absurd (err_ne_ok (sym h)))

  Leads-cons :
      (P R Q : W → Type 0) (s : Step) (ss : List Step)
      → Does P s R
      → Leads R ss Q
      → Leads P (s ∷ ss) Q
  unfolding run_all run
  Leads-cons P R Q s ss first more m (here_, seen) =
      let (safe, then_, else_) = first m.world here_ in
      elim (Result-cases (step_result s (exec s.argv m.world).0)) [
        | inl (e, failed) ↦
            rw (run_all, failed) ((safe, seen), λ k. absurd (err_ne_ok k), λ f k. else_ e failed)
        | inr (u, fine) ↦ rw (run_all, fine) (more (run exec s m).1 (then_ fine, (safe, seen)))
      ]

  -- A command after which nothing is marked, however it ends.
  unmarked-Does :
      (P Q : W → Type 0) (s : Step)
      → ((w : W) → P w → Unmarked (exec s.argv w).1)
      → ((w : W) → P w → step_result s (exec s.argv w).0 ≡ ok tt → Q (exec s.argv w).1)
      → Does P s Q
  unmarked-Does P Q s off then_ w h = (shut (exec s.argv w).1 (off w h), then_ w h, λ e k. off w h)

  network-Does : (s : Step) → IsNetwork s → Does Unmarked s Unmarked
  network-Does s n =
      unmarked-Does Unmarked Unmarked s
        (λ w h. network-Off exec marked unreachable ruled nft_path laws s w n h)
        (λ w h e. network-Off exec marked unreachable ruled nft_path laws s w n h)

  network-Leads :
      (ss ts : List Step) (Q : W → Type 0)
      → All IsNetwork ss
      → Leads Unmarked ts Q
      → Leads Unmarked (ss ++ ts) Q
  network-Leads [] ts Q h more = more
  network-Leads (s ∷ ss) ts Q h more =
      Leads-cons Unmarked Unmarked Q s (ss ++ ts) (network-Does s h.0)
        (network-Leads ss ts Q h.1 more)

  -- The rest of `up`, once the link is there.
  route-Does : Does Unmarked (step add_unreachable) Routed
  route-Does =
      unmarked-Does Unmarked Routed (step add_unreachable)
        (λ w off. laws.ip_unmarked add_unreachable w refl off)
        (λ w off e. (
          laws.ip_unmarked add_unreachable w refl off,
          laws.route_added w (required_ok add_unreachable (exec add_unreachable w).0 e),
        ))

  rule-Does : Does Routed (step add_rule) Armed
  rule-Does =
      unmarked-Does Routed Armed (step add_rule)
        (λ w (off, routed). laws.ip_unmarked add_rule w refl off)
        (λ w (off, routed) e. (
          laws.ip_unmarked add_rule w refl off,
          laws.route_kept add_rule w (here refl) routed,
          laws.rule_added w (required_ok add_rule (exec add_rule w).0 e),
        ))

  kept-Does :
      (s : Step)
      → get_or s.argv 0 [] ≡ bytes "ip"
      → Any (λ a. a ≡ s.argv) (additions nft_path)
      → Does Armed s Armed
  kept-Does s ip in_ =
      unmarked-Does Armed Armed s (λ w (off, routed, on). laws.ip_unmarked s.argv w ip off)
        (λ w (off, routed, on) e. (
          laws.ip_unmarked s.argv w ip off,
          laws.route_kept s.argv w in_ routed,
          laws.rule_kept s.argv w in_ on,
        ))

  load-Does : Does Armed (step (load_rules nft_path)) Ready
  load-Does w (off, routed, on) =
      let in_ = there (there (there (here refl))) in
      let r = laws.route_kept (load_rules nft_path) w in_ routed in
      let q = laws.rule_kept (load_rules nft_path) w in_ on in
      (
        λ k. (r, q),
        λ k. (r, q),
        λ e h.
            laws.not_loaded w off (
              failed-unsucceeded (step (load_rules nft_path)) (exec (load_rules nft_path) w).0 e h),
      )

  up_steps-Leads :
      (config : WgConfig) (path : Text) → Leads Unmarked (up_steps config path nft_path) Ready
  unfolding up_steps
  up_steps-Leads config path =
      network-Leads (link_steps config path) _ Ready (link-IsNetwork config path) (
        Leads-cons Unmarked Routed Ready _ _ route-Does (
          Leads-cons Routed Armed Ready _ _ rule-Does (
            Leads-cons Armed Armed Ready _ _
              (kept-Does (optional_step add_unreachable_v6) refl (there (here refl)))
              (Leads-cons Armed Armed Ready _ _
                (kept-Does (optional_step add_rule_v6) refl (there (there (here refl))))
                (Leads-cons Armed Ready Ready _ _ load-Does (Leads-nil Ready))))))

  -- How a call of `up` may end.
  abbrev Ended : Result UpError (Unit {0}) × Machine W → Type 0
  Ended (ok u, m) = Holds Ready m
  Ended (err e, m) = Holds Unmarked m × RuleGone exec ruled m.world m.seen

  forget_key-Holds :
      (P : W → Type 0) (b : Bool) (m : Machine W) → Holds P m → Holds P (forget_key exec b m)
  forget_key-Holds P true m h = h
  forget_key-Holds P false m h = h

  -- What `down` leaves where it can clear what is marked.
  abbrev Clean : Machine W → Type 0
  Clean m = Holds Unmarked m × RuleGone exec ruled m.world m.seen

  down-Clean :
      (m : Machine W) → CanClear exec marked m.world → All Shut m.seen → Clean (down exec m)
  down-Clean m clear seen = (
    down-Off exec marked unreachable ruled nft_path laws m clear seen,
    down-NoRule exec marked unreachable ruled nft_path laws m,
  )

  module _ (io : Io) (config : WgConfig) (uid : ℕ) (path : Text) where
    install-Ended :
        (m : Machine W) → Holds Unmarked m → Ended (install exec io config uid path nft_path m)
    install-Ended m off =
        let (seen, then_, else_) = up_steps-Leads config path m off in
        let ended : Machine W = (run_all exec (up_steps config path nft_path) m).1 in
        elim (Result-cases (run_all exec (up_steps config path nft_path) m).0) [
          | inl (e, failed) ↦
              let (off_, seen_) =
                forget_key-Holds Unmarked io.removed ended (else_ e failed, seen) in
              rw failed (down-Clean (forget_key exec io.removed ended) (inl off_) seen_)
          | inr (u, fine) ↦ rw fine (forget_key-Holds Ready io.removed ended (then_ fine, seen))
        ]

    with_text-Ended :
        (r : Result UpError (List Text)) (m : Machine W)
        → Clean m
        → Ended (with_text exec io config uid path nft_path r m)
    with_text-Ended (err e) m clean = clean
    with_text-Ended (ok lines) m clean = written io.setconf_write
      where
        nft_written :
            (n : Written) (m' : Machine W)
            → Clean m'
            → Ended (write_nft exec io config uid path nft_path n m')
        nft_written whole m' clean' =
            install-Ended (record m' { nft_file = some (nft_ruleset uid) }) clean'.0
        nft_written not_opened m' clean' = clean'
        nft_written (cut_short k) m' clean' = clean'

        written : (s : Written) → Ended (write_setconf exec io config uid path nft_path s lines m)
        written whole = nft_written io.nft_write (record m { setconf_file = some lines }) clean
        written not_opened = clean
        written (cut_short k) = clean

    up-Ended :
        (m : Machine W)
        → CanClear exec marked m.world
        → All Shut m.seen
        → Ended (up exec io config uid path nft_path m)
    unfolding up
    up-Ended m clear seen = elim (Bool-cases io.dir_made) [
      | inl made ↦
          rw (up, made)
            (with_text-Ended (setconf_text io config) (down exec m) (down-Clean m clear seen))
      | inr no_dir ↦ rw (up, no_dir) (down-Clean m clear seen)
    ]

  Ended-seen : (x : Result UpError (Unit {0}) × Machine W) → Ended x → All Shut x.1.seen
  Ended-seen (ok u, m) h = h.1
  Ended-seen (err e, m) h = h.0.1

  Ended-err :
      (x : Result UpError (Unit {0}) × Machine W) (e : UpError)
      → Ended x
      → x.0 ≡ err e
      → Unmarked x.1.world × RuleGone exec ruled x.1.world x.1.seen
  Ended-err (ok u, m) e h f = absurd (err_ne_ok (sym f))
  Ended-err (err f, m) e h g = (h.0.0, h.1)

module _ {W : Type 0} (exec : List Text → W → Ran × W) (marked unreachable ruled : W → Bool)
    (nft_path : Text) (laws : KernelLaws exec marked unreachable ruled nft_path) (io : Io)
    (config : WgConfig) (uid : ℕ) (path : Text) (m : Machine W) (none_yet : m.seen ≡ [])
    (clear : CanClear exec marked m.world) where
  abbrev outcome : Result UpError (Unit {0}) × Machine W
  outcome = up exec io config uid path nft_path m

  ended : Ended exec marked unreachable ruled nft_path laws outcome
  ended =
      up-Ended exec marked unreachable ruled nft_path laws io config uid path m clear
        (rw none_yet tt)

  -- If nothing is marked at first or the first deletion of the nftables table succeeds, then,
  -- whatever other commands fail, and wherever `up` stops, each world that its commands leave fails
  -- closed: packets of the slice are marked only while the table has its unreachable route and the
  -- rule sends marked packets there.
  pub up-FailsClosed :
      All (FailsClosed marked unreachable ruled) (up exec io config uid path nft_path m).1.seen
  up-FailsClosed = Ended-seen exec marked unreachable ruled nft_path laws outcome ended

  -- If nothing is marked at first or the first deletion of the nftables table succeeds, then after
  -- every failure of `up`, before, during or after its commands, and whatever the roll-back's own
  -- commands do, nothing is marked; and no rule sends marked packets to the half-built table, unless
  -- there was one whose deletion failed at a world of this run.
  pub up-err :
      (e : UpError)
      → (up exec io config uid path nft_path m).0 ≡ err e
      → (marked (up exec io config uid path nft_path m).1.world ≡ false)
        × RuleGone exec ruled
            (up exec io config uid path nft_path m).1.world
            (up exec io config uid path nft_path m).1.seen
  up-err e = Ended-err exec marked unreachable ruled nft_path laws outcome e ended
