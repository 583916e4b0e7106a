-- ===== src/Program/Handles.antt =====
-- kernel/sima_program.c, the handles: which are valid after each call.
use mathlib.Core.Path.{subst}
use seolsem.Base.{
  ℕ, ◌+◌, ◌<◌, ◌≡◌, ◌≢◌, refl, sym, ap, ◌∙◌, Bool, true, false, not, ◌&&◌, ◌||◌, Option, none, some,
  List, [], ◌∷◌, ltb, leb, ◌==◌, if◌then◌else◌, u16, length, Str, arith, if_rule,
}
use seolsem.Perm.{Context, op_read, op_exec, perm_check}
use seolsem.Xef.{header_size}
use seolsem.Program.{
  Result, is_ok, at_path, ok, err_invalid_arg, err_permission, err_not_found, err_not_executable,
  err_file_too_large, err_io, err_bad_format, Slot, Heap, Dirent, Target, Files, State, has_slot,
  store, program_required_capacity, program_next_generation, program_handle_valid,
  program_loader_ensure_slot, program_loader_commit,
}
use seolsem.Program.Open.{
  commit, read_image, open_slot, open_file, open_found, program_loader_open_common,
  program_loader_open,
}
use seolsem.Program.Slots.{IsSlot, Ensures, program_loader_ensure_slot-Ensures}

next-fresh :
    (g : ℕ)
    → g < 65536
    → (program_next_generation g ≢ 0)
      × (program_next_generation g ≢ g)
      × (program_next_generation g < 65536)
unfolding program_next_generation
next-fresh g h = (ground arith, ground arith, ground arith)

pub is_ok→eq : (rc : Result) → not (is_ok rc) ≡ false → rc ≡ ok
is_ok→eq ok e = refl
is_ok→eq _ e = cc

pub not_ok : (rc : Result) → rc ≡ ok → not (is_ok rc) ≢ true
not_ok rc o q = bool_ne (sym (ap (λ r. not (is_ok r)) o) ∙ q)
  where
    bool_ne : false ≢ true
    bool_ne e = cc

module _ {Fs : Type 0} where
  -- A result of an attempt to open a program: the new handle is valid and the old one is not, or
  -- the valid handles are those that were.
  pub record Opens (slot : Slot) (r : Result × ℕ × State Fs) : Type 0 where
    pub sound : IsSlot r.2.slot
    pub fresh :
        r.0 ≡ ok
        → (program_handle_valid r.2.slot r.1 ≡ true)
          × (program_handle_valid r.2.slot slot.generation ≡ false)
    pub kept :
        r.0 ≢ ok
        → (r.1 ≡ 0) × ((h : ℕ) → program_handle_valid r.2.slot h ≡ program_handle_valid slot h)

  refused :
      (slot : Slot) (rc : Result) (st : State Fs)
      → rc ≢ ok
      → IsSlot st.slot
      → ((h : ℕ) → program_handle_valid st.slot h ≡ program_handle_valid slot h)
      → Opens slot (rc, 0, st)
  refused slot rc st ne s same = record {
    sound = s;
    fresh = λ e. absurd (ne e);
    kept = λ n. (refl, same);
  }

module _ (files : Files) where
  open files use {Fs, stat, is_executable, read}

  loaded_valid :
      (slot : Slot) (h : ℕ)
      → has_slot slot ≡ true
      → slot.loaded ≡ true
      → slot.generation ≢ 0
      → slot.generation ≡ h
      → program_handle_valid slot h ≡ true
  unfolding program_handle_valid
  loaded_valid slot h ready l ne e = ground arith

  other_invalid : (slot : Slot) (h : ℕ) → slot.generation ≢ h → program_handle_valid slot h ≡ false
  unfolding program_handle_valid
  other_invalid slot h ne = ground arith

  committed :
      (slot : Slot) (n need_size : ℕ) (st : State Fs)
      → has_slot st.slot ≡ true
      → IsSlot st.slot
      → st.slot.generation ≡ slot.generation
      → ((h : ℕ) → program_handle_valid st.slot h ≡ program_handle_valid slot h)
      → (t : Result × ℕ × Slot) → t ≡ program_loader_commit n need_size st.slot
      → Opens slot (t.0, t.1, record st { slot = t.2 })
  unfolding program_loader_commit
  committed slot n need_size st ready s gen same t e =
      subst (λ t'. Opens slot (t'.0, t'.1, record st { slot = t'.2 })) (sym e)
        (if_rule (λ (t' : Result × ℕ × Slot). Opens slot (t'.0, t'.1, record st { slot = t'.2 }))
          (n == 0 || ltb st.slot.capacity n) (err_io, 0, st.slot) (ok, g, full)
          (λ q. refused slot err_io st (λ q'. cc) s same)
          λ q. record {
            sound = record { there = λ l. ready; fits = λ l. ground (arith, q); octets = new.2 };
            fresh = λ l. (
              loaded_valid full g ready refl new.0 refl,
              other_invalid full slot.generation λ same_g. new.1 (same_g ∙ sym gen),
            );
            kept = λ ne. absurd (ne refl);
          })
    where
      g : ℕ
      g = program_next_generation st.slot.generation

      new : (g ≢ 0) × (g ≢ st.slot.generation) × (g < 65536)
      new = next-fresh st.slot.generation s.octets

      full : Slot
      full = record st.slot {
        image_size = u16 n;
        last_exec_size = need_size;
        loaded = true;
        generation = program_next_generation st.slot.generation;
      }

  commit-Opens :
      (slot : Slot) (size need_size : ℕ) (st : State Fs) (r : Bool × List ℕ × Fs)
      → has_slot st.slot ≡ true
      → IsSlot st.slot
      → st.slot.generation ≡ slot.generation
      → ((h : ℕ) → program_handle_valid st.slot h ≡ program_handle_valid slot h)
      → Opens slot (commit files size need_size st r)
  unfolding commit
  commit-Opens slot size need_size st (done, bytes, fs) ready s gen same =
      let moved : State Fs = record st { memory = store bytes st.slot.base st.memory; fs = fs } in
      let t = program_loader_commit (length bytes) need_size st.slot in
      if_rule (Opens slot) (done && length bytes == size) (t.0, t.1, record moved { slot = t.2 })
        (err_io, 0, moved)
        (λ e. committed slot (length bytes) need_size moved ready s gen same t refl)
        λ e. refused slot err_io moved (λ q. cc) s same

  read_image-Opens :
      (target : Target) (slot : Slot) (size need_size : ℕ) (st : State Fs)
      (r : Result × Slot × Heap)
      → Ensures slot r
      → Opens slot (read_image files target size need_size st r)
  unfolding read_image
  read_image-Opens target slot size need_size st (rc, slot', heap) e =
      let st₁ : State Fs = record st { slot = slot'; heap = heap } in
      let read_it = commit files size need_size st₁ (read target size st.fs) in
      let go_on = if ltb slot'.capacity need_size then (err_file_too_large, 0, st₁) else read_it in
      if_rule (Opens slot) (not (is_ok rc)) (rc, 0, st₁) go_on
        (λ q. refused slot rc st₁ (λ o. not_ok rc o q) e.sound e.same)
        λ q.
          if_rule (Opens slot) (ltb slot'.capacity need_size) (err_file_too_large, 0, st₁) read_it
            (λ q'. refused slot err_file_too_large st₁ (λ o. cc) e.sound e.same)
            λ q'.
              commit-Opens slot size need_size st₁ (read target size st.fs)
                (e.ready (is_ok→eq rc q)) e.sound e.generation e.same

  -- A refusal before the slot is touched.
  early :
      (slot : Slot) (rc : Result) (st : State Fs)
      → rc ≢ ok
      → IsSlot slot
      → st.slot ≡ slot
      → Opens slot (rc, 0, st)
  early slot rc st ne s e =
      refused slot rc st ne (subst IsSlot (sym e) s) λ h. ap (λ t. program_handle_valid t h) e

  open_slot-Opens :
      (target : Target) (size : ℕ) (st : State Fs) (r : Bool × List ℕ × Fs)
      → IsSlot st.slot
      → Opens st.slot (open_slot files target size st r)
  unfolding open_slot
  open_slot-Opens target size st (done, bytes, fs) s =
      let need_size =
        program_required_capacity (store bytes 0 λ i. 0) (u16 (length bytes)) (u16 size) in
      let made = program_loader_ensure_slot st.slot st.heap in
      if_rule (Opens st.slot) (done && leb header_size (length bytes))
        (read_image files target size need_size (record st { fs = fs }) made)
        (err_bad_format, 0, record st { fs = fs })
        (λ q.
          read_image-Opens target st.slot size need_size (record st { fs = fs }) made
            (program_loader_ensure_slot-Ensures st.slot st.heap s))
        λ q. early st.slot err_bad_format (record st { fs = fs }) (λ o. cc) s refl

  open_file-Opens :
      (target : Target) (size : ℕ) (st : State Fs) (r : Bool × Fs)
      → IsSlot st.slot
      → Opens st.slot (open_file files target size st r)
  unfolding open_file
  open_file-Opens target size st (executable, fs) s =
      let st₁ : State Fs = record st { fs = fs } in
      let next = open_slot files target size st₁ (read target header_size fs) in
      let sized = if size == 0 || ltb 65535 size then (err_file_too_large, 0, st₁) else next in
      if_rule (Opens st.slot) (not executable) (err_not_executable, 0, st₁) sized
        (λ q. early st.slot err_not_executable st₁ (λ o. cc) s refl)
        λ q.
          if_rule (Opens st.slot) (size == 0 || ltb 65535 size) (err_file_too_large, 0, st₁) next
            (λ q'. early st.slot err_file_too_large st₁ (λ o. cc) s refl)
            λ q'. open_slot-Opens target size st₁ (read target header_size fs) s

  open_found-Opens :
      (target : Target) (st : State Fs) (r : Option Dirent × Fs)
      → IsSlot st.slot
      → Opens st.slot (open_found files target st r)
  unfolding open_found
  open_found-Opens target st (none, fs) s =
      early st.slot err_not_found (record st { fs = fs }) (λ o. cc) s refl
  open_found-Opens target st (some ent, fs) s =
      let st₁ : State Fs = record st { fs = fs } in
      if_rule (Opens st.slot) ent.is_dir (err_not_executable, 0, st₁)
        (open_file files target ent.size st₁ (is_executable target fs))
        (λ q. early st.slot err_not_executable st₁ (λ o. cc) s refl)
        λ q. open_file-Opens target ent.size st₁ (is_executable target fs) s

  open_common-Opens :
      (ctx : Context) (path : Str) (target : Target) (st : State Fs)
      → IsSlot st.slot
      → Opens st.slot (program_loader_open_common files ctx path target st)
  unfolding program_loader_open_common
  open_common-Opens ctx [] target st s = early st.slot err_invalid_arg st (λ o. cc) s refl
  open_common-Opens ctx (c ∷ path) target st s =
      if_rule (Opens st.slot) (perm_check ctx (some (c ∷ path)) (op_read + op_exec))
        (open_found files target st (stat target st.fs)) (err_permission, 0, st)
        (λ q. open_found-Opens target st (stat target st.fs) s)
        λ q. early st.slot err_permission st (λ o. cc) s refl

  -- program_loader_open with any file system, permissions and heap, in a state where a loaded
  -- image lies in a slot that is there: the state is again such a one. If the result is PROGRAM_OK
  -- the returned handle is valid and the one before it is not; otherwise the returned handle is 0
  -- and exactly the handles that were valid are valid.
  pub program_loader_open-Opens :
      (ctx : Context) (path : Option Str) (st : State Fs)
      → IsSlot st.slot
      → Opens st.slot (program_loader_open files ctx path st)
  unfolding program_loader_open
  program_loader_open-Opens ctx none st s = early st.slot err_invalid_arg st (λ o. cc) s refl
  program_loader_open-Opens ctx (some path) st s = open_common-Opens ctx path (at_path path) st s
