-- ===== src/Error/Messages.antt =====
-- What the message functions of src/error.rs leave in memory.
use lancedb_c.Prelude.{
  ℕ, Bool, Bool-cases, inl, inr, subst, sym, ◌≡◌, refl, true, false, none, some, arith, ◌==◌,
}
use lancedb_c.Text.{Bytes, codes, has_nul}
use lancedb_c.External.{External, Error}
use lancedb_c.Memory.{Ptr, null, addr, Heap, write, push, text, pointer_slot, alloc, release}
use lancedb_c.Memory.Laws.{IsWf, write_pointer-ok, live-lt-next, mem-push_old}
use lancedb_c.Memory.Returns
use lancedb_c.Memory.Returns.{Returns}
use lancedb_c.Error.{
  write_c_string, set_custom_error_message, set_error_message, set_invalid_argument_message,
  set_unknown_error_message, handle_error, error_to_error_code, lancedb_free_string,
}

-- A place for a message: null, or a variable of the caller.
abbrev pub MessageSlot : {X : External} → Heap X → Ptr → Type 0
MessageSlot h null = Unit {0}
MessageSlot h (addr a) = (old : Ptr) × (h.mem a ≡ some (pointer_slot old))

-- From `h` to `g` the variable at `a` got a new string `msg`, and nothing else changed.
pub record Delivered {X : External} (msg : Bytes) (a : ℕ) (h g : Heap X) : Type 0 where
  pub at : ℕ
  pub slot : g.mem a ≡ some (pointer_slot (addr at))
  pub fresh : h.mem at ≡ none
  pub holds : g.mem at ≡ some (text msg)
  pub same : (b : ℕ) → (b == a) ≡ false → (b == at) ≡ false → g.mem b ≡ h.mem b
  pub wf : IsWf g

-- The message is delivered to a variable, and dropped for null.
abbrev pub Reported : {X : External} → Bytes → Ptr → Heap X → Heap X → Type 0
Reported msg null h g = g ≡ h
Reported msg (addr a) h g = Delivered msg a h g

-- What a variable gets for a message: a new string, or a null pointer in place of one with a NUL byte.
abbrev pub Put : {X : External} → Bool → Bytes → ℕ → Heap X → Heap X → Type 0
Put false msg a h g = Delivered msg a h g
Put true msg a h g = g ≡ write h a (some (pointer_slot null))

-- Any message, delivered to a variable or dropped for null.
abbrev pub Told : {X : External} → Bytes → Ptr → Heap X → Heap X → Type 0
Told msg null h g = g ≡ h
Told msg (addr a) h g = Put (has_nul msg) msg a h g

module _ {X : External} (h : Heap X) where
  write_c_string-Delivered :
      (a : ℕ) (msg : Bytes) (old : Ptr)
      → has_nul msg ≡ false
      → h.mem a ≡ some (pointer_slot old)
      → IsWf h
      → Returns (λ _ g. Delivered msg a h g) (write_c_string (addr a) msg h)
  unfolding write_c_string alloc push write
  write_c_string-Delivered a msg old clean live wf =
      let below = live-lt-next a _ wf live in
      rw clean (
        rw (write_pointer-ok (push h (text msg)) a old (addr h.next) (mem-push_old a _ _ wf live))
          (record {
            at = h.next;
            slot = ground arith;
            fresh = wf.unused h.next (omega arith);
            holds = ground arith;
            same = λ b b_a b_at. ground arith;
            wf = record { unused = λ b le. ground (arith, wf.unused b) };
          }))

  -- A message with no NUL byte is delivered as it is.
  pub set_custom_error_message-Reported :
      (p : Ptr) (msg : Bytes)
      → has_nul msg ≡ false
      → MessageSlot h p
      → IsWf h
      → Returns (λ _ g. Reported msg p h g) (set_custom_error_message p msg h)
  unfolding set_custom_error_message
  set_custom_error_message-Reported null msg clean slot wf = refl
  set_custom_error_message-Reported (addr a) msg clean (old, live) wf =
      write_c_string-Delivered a msg old clean live wf

  pub set_invalid_argument_message-Reported :
      (p : Ptr)
      → MessageSlot h p
      → IsWf h
      → Returns
          (λ _ g. Reported (codes "Invalid argument") p h g)
          (set_invalid_argument_message p h)
  unfolding set_invalid_argument_message has_nul
  set_invalid_argument_message-Reported null slot wf = refl
  set_invalid_argument_message-Reported (addr a) (old, live) wf =
      write_c_string-Delivered a (codes "Invalid argument") old refl live wf

  pub set_unknown_error_message-Reported :
      (p : Ptr)
      → MessageSlot h p
      → IsWf h
      → Returns (λ _ g. Reported (codes "Unknown error") p h g) (set_unknown_error_message p h)
  unfolding set_unknown_error_message has_nul
  set_unknown_error_message-Reported null slot wf = refl
  set_unknown_error_message-Reported (addr a) (old, live) wf =
      write_c_string-Delivered a (codes "Unknown error") old refl live wf

  write_c_string-null :
      (a : ℕ) (msg : Bytes) (old : Ptr)
      → has_nul msg ≡ true
      → h.mem a ≡ some (pointer_slot old)
      → Returns (λ _ g. g ≡ write h a (some (pointer_slot null))) (write_c_string (addr a) msg h)
  unfolding write_c_string
  write_c_string-null a msg old dirty live = rw (dirty, write_pointer-ok h a old null live) refl

  write_c_string-Put :
      (a : ℕ) (msg : Bytes) (old : Ptr)
      → h.mem a ≡ some (pointer_slot old)
      → IsWf h
      → Returns (λ _ g. Put (has_nul msg) msg a h g) (write_c_string (addr a) msg h)
  write_c_string-Put a msg old live wf = elim (Bool-cases (has_nul msg)) [
    | inl dirty ↦
        subst (λ b. Returns (λ _ g. Put b msg a h g) (write_c_string (addr a) msg h)) (sym dirty)
          (write_c_string-null a msg old dirty live)
    | inr clean ↦
        subst (λ b. Returns (λ _ g. Put b msg a h g) (write_c_string (addr a) msg h)) (sym clean)
          (write_c_string-Delivered a msg old clean live wf)
  ]

  pub set_custom_error_message-Told :
      (p : Ptr) (msg : Bytes)
      → MessageSlot h p
      → IsWf h
      → Returns (λ _ g. Told msg p h g) (set_custom_error_message p msg h)
  unfolding set_custom_error_message
  set_custom_error_message-Told null msg slot wf = refl
  set_custom_error_message-Told (addr a) msg (old, live) wf = write_c_string-Put a msg old live wf

  -- For any error, and a place for a message that is null or a variable of the caller, the error's code is returned. The variable
  -- gets a new string with the text, or a null pointer if the text has a NUL byte, and nothing else changes.
  pub handle_error-Told :
      (error : Error) (p : Ptr)
      → MessageSlot h p
      → IsWf h
      → Returns
          (λ code g. (code ≡ error_to_error_code error) × Told (X.display error) p h g)
          (handle_error error p h)
  unfolding handle_error set_error_message
  handle_error-Told error null slot wf = (refl, refl)
  handle_error-Told error (addr a) (old, live) wf =
      Returns.bind (λ _ g. Put (has_nul (X.display error)) (X.display error) a h g) _ _ _
        (write_c_string-Put a (X.display error) old live wf) λ _ g d. (refl, d)

-- A caller that frees the string that was delivered to its variable is left with the memory from before but for its variable.
pub lancedb_free_string-Delivered :
    {X : External} {msg : Bytes} {a : ℕ} {h g : Heap X} (d : Delivered msg a h g)
    → Returns
        (λ _ k. (b : ℕ) → (b == a) ≡ false → k.mem b ≡ h.mem b)
        (lancedb_free_string (addr d.at) g)
unfolding lancedb_free_string release write
lancedb_free_string-Delivered d = rw (d.holds, Returns) (λ b out. ground (arith, d.fresh, d.same b))
