-- ===== src/Ata/Addresses.antt =====
-- The address of a sector in the registers: 28 bits of it.
use seolsem.Base.{ℕ, ◌+◌, ◌*◌, ◌/◌, ◌^◌, ◌≡◌, refl, arith, bit_and}
use seolsem.Base.Bits.{and_mask}
use seolsem.Fat.{Sector}
use seolsem.Ata.{Ports, send_command, ide_select_drive, ide_read_sector, ide_write_sector}

-- The bytes of an address in the registers do not see a multiple of 2 to the 28.
module _ (lba k : ℕ) where
  abbrev beyond : ℕ
  beyond = lba + k * 268435456

  lowest : bit_and beyond 0xFF ≡ bit_and lba 0xFF
  lowest = omega (arith, and_mask 8 beyond, and_mask 8 lba)

  second : bit_and (beyond / 2 ^ 8) 0xFF ≡ bit_and (lba / 2 ^ 8) 0xFF
  second = omega (arith, and_mask 8 (beyond / 2 ^ 8), and_mask 8 (lba / 2 ^ 8))

  third : bit_and (beyond / 2 ^ 16) 0xFF ≡ bit_and (lba / 2 ^ 16) 0xFF
  third = omega (arith, and_mask 8 (beyond / 2 ^ 16), and_mask 8 (lba / 2 ^ 16))

  highest : bit_and (beyond / 2 ^ 24) 0x0F ≡ bit_and (lba / 2 ^ 24) 0x0F
  highest = omega (arith, and_mask 4 (beyond / 2 ^ 24), and_mask 4 (lba / 2 ^ 24))

module _ (ports : Ports) (lba k : ℕ) where
  open ports use {Device}

  send_command-wraps :
      (command : ℕ)
      → send_command ports (lba + k * 268435456) command ≡ send_command ports lba command
  unfolding send_command ide_select_drive
  send_command-wraps command = rw (lowest lba k, second lba k, third lba k, highest lba k) refl

  -- ide_read_sector and ide_write_sector on any ports: an address and the same address with any
  -- multiple of 2 to the 28 added do the same to the device and return the same.
  pub sectors-wrap :
      (buffer : Sector)
      → (ide_read_sector ports (lba + k * 268435456) ≡ ide_read_sector ports lba)
        × (ide_write_sector ports (lba + k * 268435456) buffer ≡ ide_write_sector ports lba buffer)
  unfolding ide_read_sector ide_write_sector
  sectors-wrap buffer = (rw (send_command-wraps 0x20) refl, rw (send_command-wraps 0x30) refl)
