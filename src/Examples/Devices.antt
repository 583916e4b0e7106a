-- ===== src/Examples/Devices.antt =====
-- Witnesses for the driver of the disk: a device that counts the readings of its status.
use seolsem.Base.{ℕ, ◌+◌, ◌*◌, ◌≡◌, refl, true, [], ltb, if◌then◌else◌}
use seolsem.Ata.{Ports, ide_wait, ide_read_sector, ide_write_sector, ide_identify_total_sectors}
use seolsem.Ata.Addresses.{sectors-wrap}
use seolsem.Ata.Latched.{IsLatched, Refused, transfers-Refused}
use seolsem.Ata.Polling.{Waits, ide_wait-Waits}

-- Busy for three readings, then ready.
abbrev slow : Ports
slow = record {
  Device = ℕ;
  io_inb = λ port n. (if ltb n 3 then 0x80 else 0x40, n + 1);
  io_outb = λ port value n. n;
  io_insw = λ port count n. ([], n);
  io_outsw = λ port words n. n;
}

ide_wait-Waits_example : Waits slow 0x88 0 true 100 0 (ide_wait slow 0x88 0 100 true 0)
ide_wait-Waits_example = ide_wait-Waits slow 0x88 0 true 100 0

sectors-wrap_example :
    (ide_read_sector slow (7 + 2 * 268435456) ≡ ide_read_sector slow 7)
    × (ide_write_sector slow (7 + 2 * 268435456) (λ o. o) ≡ ide_write_sector slow 7 (λ o. o))
sectors-wrap_example = sectors-wrap slow 7 2 (λ o. o)

-- The error of a command stays until the next command.
abbrev failed : Ports
failed = record slow { io_inb = λ port n. (0x41, n) }

latched : IsLatched failed (λ n. n ≡ 0)
latched = record { reports = λ d h. refl; stays = λ d h. h }

transfers-Refused_example :
    Refused failed (λ n. n ≡ 0) (ide_read_sector failed 7) 0
    × Refused failed (λ n. n ≡ 0) (ide_write_sector failed 7 (λ o. o)) 0
    × Refused failed (λ n. n ≡ 0) (ide_identify_total_sectors failed) 0
transfers-Refused_example = transfers-Refused failed (λ n. n ≡ 0) latched 0 refl 7 (λ o. o)
