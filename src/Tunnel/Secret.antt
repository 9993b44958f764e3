-- ===== src/Tunnel/Secret.antt =====
-- The file with the private key, after `up`.
use detour.Prelude.{
  List, Option, Result, Text, [], err, none, ok, refl, some, sym, true, ℕ, ◌↔◌, ◌∙◌, ◌∷◌, ◌≡◌,
}
use detour.Tunnel.{WgConfig}
use detour.Tunnel.Steps.{Step, down_steps, nft_ruleset, up_steps}
use detour.Tunnel.Bringup.{
  Io, Machine, Ran, UpError, Written, cut_short, down, forget_key, install, not_opened, roll_back,
  run, run_all, run_each, setconf_text, up, whole, write_nft,
}

module _ {W : Type 0} (exec : List Text → W → Ran × W) where
  run_each-setconf_file :
      (ss : List Step) (m : Machine W) → (run_each exec ss m).setconf_file ≡ m.setconf_file
  unfolding run_each run
  run_each-setconf_file [] m = refl
  run_each-setconf_file (s ∷ ss) m = run_each-setconf_file ss (run exec s m).1

  down-setconf_file : (m : Machine W) → (down exec m).setconf_file ≡ m.setconf_file
  unfolding down
  down-setconf_file m = run_each-setconf_file down_steps m

  roll_back-setconf_file :
      (r : Result UpError (Unit {0})) (m : Machine W)
      → (roll_back exec (r, m)).1.setconf_file ≡ m.setconf_file
  roll_back-setconf_file (ok u) m = refl
  roll_back-setconf_file (err e) m = down-setconf_file m

  module _ (io : Io) (config : WgConfig) (uid : ℕ) (path nft_path : Text)
      (removed : io.removed ≡ true) where
    install-setconf_file :
        (m : Machine W) → (install exec io config uid path nft_path m).1.setconf_file ≡ none
    install-setconf_file m =
        let (r, m') = run_all exec (up_steps config path nft_path) m in
        roll_back-setconf_file r (forget_key exec io.removed m') ∙ rw removed

    differs : (lines : List Text) → ◌≡◌ {A = Option (List Text)} (some lines) none → ⊥
    differs lines e = cc

    write_nft-setconf_file :
        (n : Written) (lines : List Text) (m : Machine W)
        → m.setconf_file ≡ some lines
        → ((write_nft exec io config uid path nft_path n m).1.setconf_file ≡ none) ↔ (n ≡ whole)
    write_nft-setconf_file whole lines m h =
        (λ e. refl, λ e. install-setconf_file (record m { nft_file = some (nft_ruleset uid) }))
    write_nft-setconf_file not_opened lines m h =
        (λ e. absurd (differs lines (sym h ∙ e)), λ e. absurd (not_whole e))
      where
        not_whole : not_opened ≡ whole → ⊥
        not_whole e = cc
    write_nft-setconf_file (cut_short k) lines m h =
        (λ e. absurd (differs lines (sym h ∙ e)), λ e. absurd (not_whole e))
      where
        not_whole : cut_short k ≡ whole → ⊥
        not_whole e = cc

    -- Where the endpoint resolves, the file with the private key was written and a removal works,
    -- `up` leaves no such file exactly if the nftables file could be written: on that one failure
    -- the key stays on the disk, on every other, and on success, it does not.
    pub up-setconf_file_none_iff :
        (m : Machine W) (lines : List Text)
        → io.dir_made ≡ true
        → setconf_text io config ≡ ok lines
        → io.setconf_write ≡ whole
        → ((up exec io config uid path nft_path m).1.setconf_file ≡ none) ↔ (io.nft_write ≡ whole)
    unfolding up
    up-setconf_file_none_iff m lines made text written =
        rw (up, made, text, written)
          (write_nft-setconf_file io.nft_write lines
            (record (down exec m) { setconf_file = some lines }) refl)
