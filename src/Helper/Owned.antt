-- ===== src/Helper/Owned.antt =====
-- `attach` touches the processes of the user alone, and resets their sockets alone.
use detour.Apps.Scopes.{Moving, denied, done, gone}
use detour.Apps.Sockets.{SocketEntry, is_local_destination, parse_ss_line}
use detour.Prelude.{
  &&_true, ==→eq, All, All-append, All-filter, All-imp, Any, Any-append_left, Any-append_right,
  Bool, Bool-cases, List, List-cases, Option, Result-cases, Text, [], any, any_iff, ap, arith,
  contains, false, here, inl, inr, none, not, refl, some, subst, suc, sym, true, zero, ℕ, ◌++◌, ◌∙◌,
  ◌∷◌, ◌≡◌, ◌⊎◌,
}
use detour.Apps.{descendants}
use detour.Apps.Tree.{All-self, Descends}
use detour.Apps.Descendants.{descendants_iff}
use detour.Helper.Attach.{
  Host, Progress, Write, fresh, move_all, noted, owned_by, reset_all, reset_socket, rounds,
  to_reset, tree_of,
}

Moving-cases : (m : Moving) → (m ≡ done) ⊎ (m ≡ gone) ⊎ (m ≡ denied)
Moving-cases done = inl refl
Moving-cases gone = inr (inl refl)
Moving-cases denied = inr (inr refl)

owned_by-eq_some : (uid : ℕ) (o : Option ℕ) → owned_by uid o ≡ true → o ≡ some uid
owned_by-eq_some uid none h = absurd (ground arith)
owned_by-eq_some uid (some owner) h = ap some (==→eq owner uid h)

-- A socket that is reset belongs to a process that was moved, and goes to a remote address.
abbrev pub IsForeign : List ℕ → SocketEntry → Type 0
IsForeign moved sock =
    Any (λ p. contains moved p ≡ true) sock.pids × (is_local_destination sock.peer.ip ≡ false)

module _ {W : Type 0} (host : Host W) (uid : ℕ) (roots : List ℕ) where
  -- In the world `w` the process belongs to the user, and descends from a root.
  abbrev pub IsOurs : W → ℕ → Type 0
  IsOurs w pid = (host.process_uid pid w ≡ some uid) × Descends roots (host.process_table w) pid

  tree-Descends :
      (table : List (ℕ × ℕ)) → All (Descends roots table) (tree_of (descendants roots table))
  tree-Descends table =
      let (out, e, same) = descendants_iff roots table in
      rw e (All-imp (λ p h. (same p).0 h) out (All-self out))

  fresh-IsOurs : (p : Progress W) → All (IsOurs p.world) (fresh host uid roots p)
  unfolding fresh
  fresh-IsOurs p =
      All-imp (λ pid (d, t). (owned_by-eq_some uid _ (&&_true _ _ t).1, d)) _
        (All-filter (Descends roots (host.process_table p.world)) _ _
          (tree-Descends (host.process_table p.world)))

  module _ (procs_file : Text) where
    abbrev pub IsProper : Write W → Type 0
    IsProper e = (e.target ≡ procs_file) × IsOurs e.checked_in e.pid

    abbrev pub WasWritten : List (Write W) → ℕ → Type 0
    WasWritten wrote pid = Any (λ e. e.pid ≡ pid) wrote

    pub record Good (p : Progress W) : Type 0 where
      pub proper : All IsProper p.wrote
      pub written : All (WasWritten p.wrote) p.moved
      pub no_resets : p.resets ≡ []

    noted-Good :
        (pid : ℕ) (start w : W) (p : Progress W)
        → IsOurs start pid
        → Good p
        → Good (noted host uid procs_file pid start w p)
    noted-Good pid start w p ours good = record {
      proper = All-append IsProper p.wrote _ good.proper ((refl, ours), tt);
      written = All-imp (λ n h. Any-append_left _ h) p.moved good.written;
      no_resets = good.no_resets;
    }

    move_all-Good :
        (start : W) (pids : List ℕ) (p : Progress W)
        → All (IsOurs start) pids
        → Good p
        → Good (move_all host uid procs_file start pids p).1
    unfolding move_all
    move_all-Good start [] p h good = good
    move_all-Good start (pid ∷ pids) p (ours, h) good =
        let w = (host.write_pid procs_file pid p.world).1 in
        let noted_ = noted-Good pid start w p ours good in
        elim (Moving-cases (host.write_pid procs_file pid p.world).0) [
          | inl e ↦
              rw (move_all, e)
                (move_all-Good start pids _ h record {
                  proper = noted_.proper;
                  written =
                      All-append
                        (WasWritten (
                          p.wrote
                          ++ record { target = procs_file; pid = pid; checked_in = start } ∷ []))
                        p.moved (pid ∷ []) noted_.written
                        (Any-append_right p.wrote (here refl), tt);
                  no_resets = noted_.no_resets;
                })
          | inr (inl e) ↦ rw (move_all, e) (move_all-Good start pids _ h noted_)
          | inr (inr e) ↦ rw (move_all, e) noted_
        ]

    pub rounds-Good :
        (k : ℕ) (p : Progress W) → Good p → Good (rounds host uid procs_file k roots p).1
    unfolding rounds
    rounds-Good zero p good = good
    rounds-Good (suc k) p good = elim (List-cases (fresh host uid roots p)) [
      | inl none_ ↦ rw (rounds, none_) good
      | inr (pid, pids, e) ↦
          let ours : All (IsOurs p.world) (pid ∷ pids) =
            subst (All (IsOurs p.world)) e (fresh-IsOurs p) in
          let next = move_all-Good p.world (pid ∷ pids) p ours good in
          elim (Result-cases (move_all host uid procs_file p.world (pid ∷ pids) p).0) [
            | inl (x, failed) ↦ rw (rounds, e, failed) next
            | inr (u, fine) ↦ rw (rounds, e, fine) (rounds-Good k _ next)
          ]
    ]

  to_reset-IsForeign :
      (moved : List ℕ) (sock : SocketEntry)
      → to_reset host uid moved sock ≡ true
      → IsForeign moved sock
  unfolding to_reset
  to_reset-IsForeign moved sock h =
      let (a, b) = &&_true (any (contains moved) sock.pids) _ h in
      ((any_iff (contains moved) (λ p. (λ e. e, λ e. e)) sock.pids).0 a, not_true b)
    where
      not_true : {b : Bool} → not b ≡ true → b ≡ false
      not_true {b = true} e = sym e
      not_true {b = false} e = refl

  -- The resets keep all but the world, the resets and their count.
  pub record Kept (p q : Progress W) : Type 0 where
    pub moved : q.moved ≡ p.moved
    pub wrote : q.wrote ≡ p.wrote
    pub foreign : All (IsForeign p.moved) p.resets → All (IsForeign p.moved) q.resets

  reset_socket-Kept : (o : Option SocketEntry) (p : Progress W) → Kept p (reset_socket host uid o p)
  reset_socket-Kept none p = record { moved = refl; wrote = refl; foreign = λ h. h }
  reset_socket-Kept (some sock) p = elim (Bool-cases (to_reset host uid p.moved sock)) [
    | inl yes_ ↦ rw yes_ (record {
      moved = refl;
      wrote = refl;
      foreign = λ h.
          All-append (IsForeign p.moved) p.resets (sock ∷ []) h
            (to_reset-IsForeign p.moved sock yes_, tt);
    })
    | inr no_ ↦ rw no_ (record { moved = refl; wrote = refl; foreign = λ h. h })
  ]

  Kept-trans : (p q r : Progress W) → Kept p q → Kept q r → Kept p r
  Kept-trans p q r a b = record {
    moved = b.moved ∙ a.moved;
    wrote = b.wrote ∙ a.wrote;
    foreign = λ h.
        subst (λ l. All (IsForeign l) r.resets) a.moved
          (b.foreign (subst (λ l. All (IsForeign l) q.resets) (sym a.moved) (a.foreign h)));
  }

  pub reset_all-Kept : (ls : List Text) (p : Progress W) → Kept p (reset_all host uid ls p)
  unfolding reset_all
  reset_all-Kept [] p = record { moved = refl; wrote = refl; foreign = λ h. h }
  reset_all-Kept (l ∷ ls) p =
      let q = reset_socket host uid (parse_ss_line host.std l) p in
      Kept-trans p q _ (reset_socket-Kept (parse_ss_line host.std l) p) (reset_all-Kept ls q)
