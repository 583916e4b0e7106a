-- ===== src/Ata.antt =====
-- kernel/sima_ide.c, the driver of the ATA disk by programmed input and output. The ports are an
-- interface: what a device answers is its own. The driver is an action (Act) on the device whose
-- failure is FALSE. A buffer is not NULL. A sector is its bytes by offset, and the 256 words that
-- pass through the data port hold two bytes each, the low one first.
pub mod Polling
pub mod Addresses
pub mod Latched
use seolsem.Base.{
  ℕ, zero, suc, ◌+◌, ◌*◌, ◌/◌, ◌%◌, ◌^◌, Bool, true, false, not, ◌&&◌, List, [], ◌∷◌, ◌==◌,
  if◌then◌else◌, bit_and, bit_or, get_or, u8, u16, u32,
}
use seolsem.Act.{Act, pure, require, check, call, modify, ◌>>=◌, ◌>>◌}
use seolsem.Fat.{Sector}

-- io_inb, io_outb, io_insw and io_outsw.
pub record Ports : Type 1 where
  pub Device : Type 0
  pub io_inb : ℕ → Device → ℕ × Device
  pub io_outb : ℕ → ℕ → Device → Device
  pub io_insw : ℕ → ℕ → Device → List ℕ × Device
  pub io_outsw : ℕ → List ℕ → Device → Device

abbrev pub ide_data : ℕ
ide_data = 0x1F0

abbrev pub ide_seccount : ℕ
ide_seccount = 0x1F2

abbrev pub ide_lba0 : ℕ
ide_lba0 = 0x1F3

abbrev pub ide_lba1 : ℕ
ide_lba1 = 0x1F4

abbrev pub ide_lba2 : ℕ
ide_lba2 = 0x1F5

abbrev pub ide_hddevsel : ℕ
ide_hddevsel = 0x1F6

abbrev pub ide_command : ℕ
ide_command = 0x1F7

abbrev pub ide_status : ℕ
ide_status = 0x1F7

abbrev pub status_bsy : ℕ
status_bsy = 0x80

abbrev pub status_drq : ℕ
status_drq = 0x08

abbrev pub status_err : ℕ
status_err = 0x01

abbrev pub has_err : ℕ → Bool
has_err status = not (bit_and status status_err == 0)

abbrev pub timeout : ℕ
timeout = 0xFFFF

-- The bytes of the words that were read, and the words of the bytes to be written.
unfoldable pub bytes_of : List ℕ → Sector
bytes_of words o =
    let word = get_or words (o / 2) 0 in if o % 2 == 0 then u8 word else u8 (word / 256)

unfoldable pub words_from : ℕ → ℕ → Sector → List ℕ
words_from zero i s = []
words_from (suc left) i s = (s (2 * i) + 256 * s (2 * i + 1)) ∷ words_from left (i + 1) s

module _ (ports : Ports) where
  open ports use {Device, io_inb, io_outb, io_insw, io_outsw}

  -- The loop of `ide_wait` with `left` readings to go.
  unfoldable pub wait_loop : ℕ → ℕ → ℕ → Bool → Device → Bool × Device
  wait_loop zero mask value fail_on_err d = (false, d)
  wait_loop (suc left) mask value fail_on_err d =
      let (status, d') = io_inb ide_status d in
      let more = wait_loop left mask value fail_on_err d' in
      if fail_on_err && has_err status
      then (false, d')
      else if bit_and status mask == value
      then (true, d')
      else more

  unfoldable pub ide_wait : ℕ → ℕ → ℕ → Bool → Device → Bool × Device
  unfolding wait_loop
  ide_wait mask value limit fail_on_err = wait_loop limit mask value fail_on_err

  unfoldable pub ide_wait_ready : Act Device Unit
  ide_wait_ready = check (ide_wait (bit_or status_bsy status_drq) 0 timeout true)

  unfoldable pub ide_wait_drq : Act Device Unit
  ide_wait_drq = check (ide_wait (bit_or status_bsy status_drq) status_drq timeout true)

  abbrev out : ℕ → ℕ → Act Device Unit
  out port value = modify (io_outb port value)

  abbrev in_status : Act Device ℕ
  in_status = call (io_inb ide_status)

  unfoldable pub ide_select_drive : ℕ → Act Device Unit
  ide_select_drive lba = out ide_hddevsel (u8 (bit_or 0xE0 (bit_and (lba / 2 ^ 24) 0x0F)))

  -- The registers of a transfer of one sector, and the command.
  unfoldable pub send_command : ℕ → ℕ → Act Device Unit
  unfolding ide_select_drive
  send_command lba command = do
    ide_select_drive lba
    out ide_seccount 1
    out ide_lba0 (u8 (bit_and lba 0xFF))
    out ide_lba1 (u8 (bit_and (lba / 2 ^ 8) 0xFF))
    out ide_lba2 (u8 (bit_and (lba / 2 ^ 16) 0xFF))
    out ide_command command

  unfoldable pub ide_read_sector : ℕ → Act Device Sector
  unfolding ide_wait_ready ide_wait_drq send_command
  ide_read_sector lba = do
    ide_wait_ready
    send_command lba 0x20
    ide_wait_drq
    words ← call (io_insw ide_data 256)
    status ← in_status
    require (not (has_err status))
    pure (bytes_of words)

  unfoldable pub ide_write_sector : ℕ → Sector → Act Device Unit
  unfolding ide_wait_ready ide_wait_drq send_command
  ide_write_sector lba buffer = do
    ide_wait_ready
    send_command lba 0x30
    ide_wait_drq
    modify (io_outsw ide_data (words_from 256 0 buffer))
    ide_wait_ready

  unfoldable pub ide_identify_total_sectors : Act Device ℕ
  unfolding ide_wait_ready ide_wait_drq
  ide_identify_total_sectors = do
    ide_wait_ready
    out ide_hddevsel 0xA0
    out ide_seccount 0
    out ide_lba0 0
    out ide_lba1 0
    out ide_lba2 0
    out ide_command 0xEC
    status ← in_status
    require (not (status == 0))
    check (ide_wait status_bsy 0 timeout true)
    status' ← in_status
    require (not (has_err status'))
    ide_wait_drq
    words ← call (io_insw ide_data 256)
    pure (bit_or (u16 (get_or words 60 0)) (u32 (u16 (get_or words 61 0) * 2 ^ 16)))
