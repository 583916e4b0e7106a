-- ===== src/Ata/Latched.antt =====
-- The driver after a command that ended in an error.
use seolsem.Base.{ℕ, ◌≡◌, refl, true, none, arith, bit_or}
use seolsem.Act.{Act, ◌>>=◌, succeeds}
use seolsem.Fat.{Sector}
use seolsem.Ata.{
  Ports, ide_status, status_bsy, status_drq, timeout, has_err, ide_wait_ready, ide_read_sector,
  ide_write_sector, ide_identify_total_sectors,
}
use seolsem.Ata.Polling.{polled, ide_wait-Waits}

module _ (ports : Ports) where
  open ports use {Device, io_inb}

  -- The device reports an error, and reading the status does not clear it.
  pub record IsLatched (P : Device → Type 0) : Type 0 where
    pub reports : (d : Device) → P d → has_err (io_inb ide_status d).0 ≡ true
    pub stays : (d : Device) → P d → P (io_inb ide_status d).1

  -- An operation returns FALSE, and the device is as before.
  abbrev pub Refused : {A : Type 0} → (Device → Type 0) → Act Device A → Device → Type 0
  Refused P m d = ((m d).0 ≡ none) × P (m d).1

  module _ (P : Device → Type 0) (latched : IsLatched P) (d : Device) (h : P d) where
    wait_ready : ide_wait_ready ports d ≡ (none, (io_inb ide_status d).1)
    unfolding ide_wait_ready succeeds polled
    wait_ready =
        rw
          ((ide_wait-Waits ports (bit_or status_bsy status_drq) 0 true timeout d).failed 0
            (omega arith) (λ j l. absurd (omega arith)) (latched.reports d h))
          refl

    -- A device that reports an error each time its status is read, until something else is done to
    -- it: ide_read_sector, ide_write_sector and ide_identify_total_sectors all return FALSE, and
    -- leave it reporting the error, since they wait for the error to pass before they send a
    -- command.
    pub transfers-Refused :
        (lba : ℕ) (buffer : Sector)
        → Refused P (ide_read_sector ports lba) d
          × Refused P (ide_write_sector ports lba buffer) d
          × Refused P (ide_identify_total_sectors ports) d
    unfolding ide_read_sector ide_write_sector ide_identify_total_sectors ◌>>=◌
    transfers-Refused lba buffer =
        rw wait_ready
          ((refl, latched.stays d h), (refl, latched.stays d h), (refl, latched.stays d h))
