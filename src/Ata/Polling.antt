-- ===== src/Ata/Polling.antt =====
-- `ide_wait`: how long it waits, and what ends it.
use seolsem.Base.{ℕ, zero, suc, ◌<◌, ◌≡◌, refl, Bool, true, false, ◌&&◌, ◌==◌, arith, bit_and}
use seolsem.Ata.{Ports, ide_status, has_err, wait_loop, ide_wait}

module _ (ports : Ports) where
  open ports use {Device, io_inb}

  -- The device after a number of readings of its status, and what the next one gives.
  unfoldable pub polled : ℕ → Device → Device
  polled zero d = d
  polled (suc n) d = polled n (io_inb ide_status d).1

  abbrev pub status_at : ℕ → Device → ℕ
  status_at n d = (io_inb ide_status (polled n d)).0

  module _ (mask value : ℕ) (fail_on_err : Bool) where
    abbrev pub Fails : ℕ → Type 0
    Fails status = fail_on_err && has_err status ≡ true

    abbrev pub Matches : ℕ → Type 0
    Matches status = (bit_and status mask == value) ≡ true

    -- Neither an error nor the value that is waited for.
    abbrev pub GoesOn : ℕ → Type 0
    GoesOn status =
        (fail_on_err && has_err status ≡ false) × ((bit_and status mask == value) ≡ false)

    -- How the wait ends, by the first reading that ends it.
    pub record Waits (limit : ℕ) (d : Device) (r : Bool × Device) : Type 0 where
      pub ready :
          (i : ℕ)
          → i < limit
          → ((j : ℕ) → j < i → GoesOn (status_at j d))
          → (fail_on_err && has_err (status_at i d) ≡ false)
          → Matches (status_at i d)
          → r ≡ (true, polled (suc i) d)
      pub failed :
          (i : ℕ)
          → i < limit
          → ((j : ℕ) → j < i → GoesOn (status_at j d))
          → Fails (status_at i d)
          → r ≡ (false, polled (suc i) d)
      pub timed_out : ((j : ℕ) → j < limit → GoesOn (status_at j d)) → r ≡ (false, polled limit d)

    abbrev waited : ℕ → Device → Bool × Device
    waited limit d = ide_wait ports mask value limit fail_on_err d

    module _ (limit : ℕ) (d : Device)
        (rest : Waits limit (io_inb ide_status d).1 (waited limit (io_inb ide_status d).1)) where
      ready_at :
          (i : ℕ)
          → i < suc limit
          → ((j : ℕ) → j < i → GoesOn (status_at j d))
          → (fail_on_err && has_err (status_at i d) ≡ false)
          → Matches (status_at i d)
          → waited (suc limit) d ≡ (true, polled (suc i) d)
      unfolding ide_wait wait_loop polled
      ready_at zero l h e m = rw e (rw m refl)
      ready_at (suc i) l h e m =
          let (no_err, no_match) = h 0 (omega arith) in
          rw no_err (rw no_match (rest.ready i (omega arith) (λ j k. h (suc j) (omega arith)) e m))

      failed_at :
          (i : ℕ)
          → i < suc limit
          → ((j : ℕ) → j < i → GoesOn (status_at j d))
          → Fails (status_at i d)
          → waited (suc limit) d ≡ (false, polled (suc i) d)
      unfolding ide_wait wait_loop polled
      failed_at zero l h e = rw e refl
      failed_at (suc i) l h e =
          let (no_err, no_match) = h 0 (omega arith) in
          rw no_err (rw no_match (rest.failed i (omega arith) (λ j k. h (suc j) (omega arith)) e))

      timed_out_at :
          ((j : ℕ) → j < suc limit → GoesOn (status_at j d))
          → waited (suc limit) d ≡ (false, polled (suc limit) d)
      unfolding ide_wait wait_loop polled
      timed_out_at h =
          let (no_err, no_match) = h 0 (omega arith) in
          rw no_err (rw no_match (rest.timed_out λ j l. h (suc j) (omega arith)))

    -- ide_wait on any device, for any mask, value and limit: if the first reading of the status,
    -- among as many as the limit, that has an error to be heeded or matches the value matches it
    -- without such an error, it returns TRUE right after that reading; if that reading has the
    -- error, FALSE right after it; and if there is none, FALSE after as many readings as the
    -- limit.
    pub ide_wait-Waits : (limit : ℕ) (d : Device) → Waits limit d (waited limit d)
    unfolding ide_wait wait_loop polled
    ide_wait-Waits zero d = record {
      ready = λ i l. absurd (omega arith);
      failed = λ i l. absurd (omega arith);
      timed_out = λ h. refl;
    }
    ide_wait-Waits (suc limit) d =
        let rest = ide_wait-Waits limit (io_inb ide_status d).1 in
        record {
          ready = ready_at limit d rest;
          failed = failed_at limit d rest;
          timed_out = timed_out_at limit d rest;
        }
