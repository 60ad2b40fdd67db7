-- ===== src/ToApp/Payloads.antt =====
-- The payloads of a message's frames, with control frames between them.
use ring_socket.Prelude.{
  ℕ, zero, suc, ◌-◌, ◌^◌, ◌≤◌, ◌<◌, ◌≡◌, ◌⊎◌, inl, inr, refl, sym, ap, ◌∙◌, Bool, true, false, ◌||◌,
  some, List, [], ◌∷◌, ◌++◌, append-nil, length-append, arith, if◌then◌else◌, ◌==◌, Bool-cases,
  length,
}
use ring_socket.Wire.Frame.{opc_ping, opc_pong}
use ring_socket.Wire.Frame.Read.{client_frame, read-client_frame}
use ring_socket.ToApp.{then_more, copy_combined_websocket_payloads, payload_of}

-- A frame with a mask whose payload was unmasked.
pub record ReadFrame : Type 0 where
  pub is_final : Bool
  pub opcode : ℕ
  pub key : List ℕ
  pub payload : List ℕ

abbrev pub is_control : ReadFrame → Bool
is_control f = f.opcode == opc_ping || f.opcode == opc_pong

abbrev pub FrameFits : ReadFrame → Type 0
FrameFits f = (f.opcode < 16) × (length f.key ≡ 4) × (length f.payload < 2 ^ 64 - 14)

-- A message: pings and pongs, and data frames of which the last one is final.
abbrev pub IsMessage : List ReadFrame → Type 0
IsMessage [] = ⊥
IsMessage (f ∷ []) = FrameFits f × (is_control f ≡ false) × (f.is_final ≡ true)
IsMessage (f ∷ g ∷ fs) =
    FrameFits f
    × ((is_control f ≡ true) ⊎ ((is_control f ≡ false) × (f.is_final ≡ false)))
    × IsMessage (g ∷ fs)

unfoldable pub stored : List ReadFrame → List ℕ → List ℕ
stored [] rest = rest
stored (f ∷ fs) rest = client_frame f.is_final f.opcode f.key f.payload ++ stored fs rest

unfoldable pub combined : List ReadFrame → List ℕ
combined [] = []
combined (f ∷ fs) = if is_control f then combined fs else f.payload ++ combined fs

empty_list : (xs : List ℕ) → length xs ≡ 0 → xs ≡ []
empty_list [] h = refl
empty_list (x ∷ xs) h = absurd (omega arith)

module _ (little : Bool) where
  -- One round of the loop.
  round_lem :
      (fuel : ℕ) (f : ReadFrame) (rest : List ℕ)
      → FrameFits f
      → copy_combined_websocket_payloads little
          (suc fuel)
          (client_frame f.is_final f.opcode f.key f.payload ++ rest)
        ≡ (if is_control f
            then copy_combined_websocket_payloads little fuel rest
            else if f.is_final
            then some f.payload
            else then_more f.payload (copy_combined_websocket_payloads little fuel rest))
  unfolding copy_combined_websocket_payloads
  round_lem fuel f rest fits =
      let (final, opcode, masked, size, copied, next) =
        read-client_frame little f.is_final f.opcode rest fits.0 f.key f.payload fits.1 fits.2 in
      rw (opcode, next, copied, final) refl

  -- For the frames of a message, as they stand in the read buffer with their payloads unmasked, the
  -- loop ends, on fuel for as many rounds as there are frames, and copies the payloads of the data
  -- frames, in order.
  pub combined_lem :
      (fuel : ℕ) (fs : List ReadFrame) (rest : List ℕ)
      → IsMessage fs
      → length fs ≤ fuel
      → copy_combined_websocket_payloads little fuel (stored fs rest) ≡ some (combined fs)
  unfolding stored combined
  combined_lem fuel [] rest m h = absurd m
  combined_lem zero (f ∷ fs) rest m h = absurd (omega arith)
  combined_lem (suc fuel) (f ∷ []) rest m h =
      round_lem fuel f rest m.0 ∙ rw (m.1, m.2) (ap some (sym (append-nil f.payload)))
  combined_lem (suc fuel) (f ∷ g ∷ fs) rest m h =
      let others = combined_lem fuel (g ∷ fs) rest m.2 (omega arith) in
      round_lem fuel f (stored (g ∷ fs) rest) m.0 ∙ elim m.1 [
        | inl control ↦ rw control others
        | inr (data_frame, more) ↦ rw (data_frame, more) (ap (then_more f.payload) others)
      ]

  length-client_frame_lower :
      (f : ReadFrame) → 1 ≤ length (client_frame f.is_final f.opcode f.key f.payload)
  unfolding client_frame
  length-client_frame_lower f = omega arith

  -- The buffer has at least as many bytes as frames.
  length-stored : (fs : List ReadFrame) (rest : List ℕ) → length fs ≤ length (stored fs rest)
  unfolding stored
  length-stored [] rest = omega arith
  length-stored (f ∷ fs) rest = omega (
    arith,
    length-append (client_frame f.is_final f.opcode f.key f.payload) (stored fs rest),
    length-client_frame_lower f,
    length-stored fs rest,
  )

  -- What `send_msg_to_app` takes for the payload.
  pub payload_of_lem :
      (fs : List ReadFrame) (rest : List ℕ)
      → IsMessage fs
      → payload_of little (stored fs rest) (length (combined fs)) ≡ some (combined fs)
  unfolding payload_of
  payload_of_lem fs rest m = elim (Bool-cases (length (combined fs) == 0)) [
    | inl empty ↦ rw empty (ap some (sym (empty_list (combined fs) (ground arith))))
    | inr some_bytes ↦
        rw some_bytes (combined_lem (length (stored fs rest)) fs rest m (length-stored fs rest))
  ]
