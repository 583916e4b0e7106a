-- ===== src/Program/Slots.antt =====
-- kernel/sima_program.c, the slot that `program_loader_ensure_slot` makes.
use seolsem.Base.{
  ℕ, inl, inr, ◌+◌, ◌-◌, ◌≤◌, ◌<◌, ◌≡◌, ◌≢◌, refl, sym, ◌∙◌, true, false, leb, ◌==◌, if◌then◌else◌,
  arith, if_rule, Bool-cases, bit_and,
}
use seolsem.Xef.{header_size}
use seolsem.Program.{
  Result, ok, err_no_memory, Slot, Heap, has_slot, sima_heap_restore, sima_heap_remaining,
  sima_malloc, program_handle_valid, program_loader_ensure_slot,
}

-- A loaded image lies in a slot that is there.
pub record IsSlot (slot : Slot) : Type 0 where
  pub there : slot.loaded ≡ true → has_slot slot ≡ true
  pub fits : slot.loaded ≡ true → slot.image_size ≤ slot.capacity
  pub octets : slot.generation < 65536

SameHandles : Slot → Slot → Type 0
SameHandles slot slot' = (h : ℕ) → program_handle_valid slot' h ≡ program_handle_valid slot h

-- What `program_loader_ensure_slot` leaves.
pub record Ensures (slot : Slot) (r : Result × Slot × Heap) : Type 0 where
  pub sound : IsSlot r.1
  pub same : (h : ℕ) → program_handle_valid r.1 h ≡ program_handle_valid slot h
  pub generation : r.1.generation ≡ slot.generation
  pub ready : r.0 ≡ ok → has_slot r.1 ≡ true

pub no_handle : (slot : Slot) (h : ℕ) → slot.loaded ≡ false → program_handle_valid slot h ≡ false
unfolding program_handle_valid
no_handle slot h e = ground arith

-- With no slot there is no valid handle.
unslotted : (slot : Slot) → IsSlot slot → has_slot slot ≡ false → slot.loaded ≡ false
unslotted slot s e = elim (Bool-cases slot.loaded) [
  | inl l ↦ absurd (bool_ne (sym (s.there l) ∙ e))
  | inr l ↦ l
]
  where
    bool_ne : true ≢ false
    bool_ne q = cc

pub program_loader_ensure_slot-Ensures :
    (slot : Slot) (heap : Heap) → IsSlot slot → Ensures slot (program_loader_ensure_slot slot heap)
unfolding program_loader_ensure_slot
program_loader_ensure_slot-Ensures slot heap s =
    let remain = sima_heap_remaining heap in
    let slot_size = bit_and (remain - 0) 0xFFFE in
    let got = sima_malloc slot_size heap in
    let emptied : Slot = record slot {
      base = got.0;
      heap_mark = heap.top_off;
      capacity = 0;
      image_size = 0;
      last_exec_size = 0;
      loaded = false;
      allocated = false;
    } in
    let made : Slot = record emptied { capacity = slot_size; allocated = true } in
    let last : Result × Slot × Heap =
      if got.0 == 0
      then (err_no_memory, emptied, sima_heap_restore heap.top_off got.1)
      else (ok, made, got.1) in
    let sized : Result × Slot × Heap =
      if leb slot_size header_size then (err_no_memory, slot, heap) else last in
    if_rule (Ensures slot) (has_slot slot) (ok, slot, heap)
      (if leb remain (0 + header_size) then (err_no_memory, slot, heap) else sized)
      (λ e. record { sound = s; same = λ h. refl; generation = refl; ready = λ q. e })
      λ e.
        let gone = unslotted slot s e in
        if_rule (Ensures slot) (leb remain (0 + header_size)) (err_no_memory, slot, heap) sized
          (λ e₁. record { sound = s; same = λ h. refl; generation = refl; ready = λ q. cc })
          λ e₁.
            if_rule (Ensures slot) (leb slot_size header_size) (err_no_memory, slot, heap) last
              (λ e₂. record { sound = s; same = λ h. refl; generation = refl; ready = λ q. cc })
              λ e₂.
                if_rule (Ensures slot) (got.0 == 0)
                  (err_no_memory, emptied, sima_heap_restore heap.top_off got.1) (ok, made, got.1)
                  (λ e₃. record {
                    sound = record { there = λ q. cc; fits = λ q. cc; octets = s.octets };
                    same = λ h. no_handle emptied h refl ∙ sym (no_handle slot h gone);
                    generation = refl;
                    ready = λ q. cc;
                  })
                  λ e₃. record {
                    sound = record { there = λ q. cc; fits = λ q. cc; octets = s.octets };
                    same = λ h. no_handle made h refl ∙ sym (no_handle slot h gone);
                    generation = refl;
                    ready = λ q. ground (arith, e₃, e₂);
                  }
