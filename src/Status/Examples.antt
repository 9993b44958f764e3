-- ===== src/Status/Examples.antt =====
-- status.rs: a snapshot of ten seconds ago.
use detour.Prelude.{[], some, true, ℕ, ◌↔◌, ◌≡◌}
use detour.Status.{Snapshot, inactive, read_snapshot}
use detour.Status.Staleness.{IsFresh, read_snapshot-active_iff}

abbrev running : Snapshot ℕ
running = record inactive { active = true; pid = 7; updated_at = 100 }

read_snapshot-active_iff_example :
    ((read_snapshot (λ t. some running) (some []) 110 5).active ≡ true)
    ↔ ((s : Snapshot ℕ) × IsFresh (λ t. some running) (some []) 110 5 s)
read_snapshot-active_iff_example = read_snapshot-active_iff (λ t. some running) (some []) 110 5
