-- ===== src/Resolvconf/Examples.antt =====
-- resolvconf.rs: the theorems on a disk with a linked `resolv.conf` and NetworkManager.
use detour.Net.{v4}
use detour.Prelude.{arith, bytes, false, none, refl, some, ◌≡◌}
use detour.Resolvconf.{
  dropin_body, link, process_is_alive, reconcile_after_crash, restore, take_over,
}
use detour.Resolvconf.Restoring.{crash-leaves_dropin, crashes-undone}
use detour.Resolvconf.RoundTrip.{restore-take_over}
use detour.Resolvconf.Sample.{linked_disk, small_host, small_host-JsonRoundTrip}

nobody_alive : process_is_alive small_host 7 ≡ false
unfolding process_is_alive
nobody_alive = refl

crashes-undone_example :
    (reconcile_after_crash small_host (record {
      disk =
          (reconcile_after_crash small_host (record {
            disk =
                (take_over small_host 7 1
                  (v4 2130706485)
                  (record { disk = linked_disk; allowance = 4 })).1.disk;
            allowance = 1;
          })).1.disk;
      allowance = 9;
    })).1.disk.resolv
    ≡ link (bytes "stub")
crashes-undone_example =
    crashes-undone small_host small_host-JsonRoundTrip 7 1 (v4 2130706485)
      (bytes "nameserver 8.8.8.8") linked_disk refl refl nobody_alive 4 1 9 (omega arith)

restore-take_over_example :
    let after =
      (restore small_host (record {
        disk =
            (take_over small_host 7 1
              (v4 2130706485)
              (record { disk = linked_disk; allowance = 5 })).1.disk;
        allowance = 5;
      })).1.disk in
    (after.resolv ≡ link (bytes "stub"))
    × (after.nm_dropin ≡ none)
    × (after.backup ≡ none)
    × (after.state ≡ none)
restore-take_over_example =
    restore-take_over small_host small_host-JsonRoundTrip 7 1 (v4 2130706485)
      (bytes "nameserver 8.8.8.8") linked_disk refl refl 5 5 (omega arith) (omega arith)

crash-leaves_dropin_example :
    (reconcile_after_crash small_host (record {
      disk =
          (take_over small_host 7 1
            (v4 2130706485)
            (record { disk = linked_disk; allowance = 3 })).1.disk;
      allowance = 9;
    })).1.disk.nm_dropin
    ≡ some dropin_body
crash-leaves_dropin_example =
    crash-leaves_dropin small_host small_host-JsonRoundTrip 7 1 (v4 2130706485)
      (bytes "nameserver 8.8.8.8") linked_disk refl refl 9 refl
