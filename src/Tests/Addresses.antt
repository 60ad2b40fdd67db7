-- ===== src/Tests/Addresses.antt =====
-- The recipients of messages.
use ring_socket.Prelude.{
  ℕ, ◌*◌, ◌+◌, ◌^◌, ◌≡◌, true, false, not, ◌&&◌, refl, List, [], ◌∷◌, ◌++◌, arith, drop,
}
use ring_socket.Wire.Bytes.{of_le}
use ring_socket.Outbound.{
  every_except_array, elem, recipients, send_head, head_size, of_app, is_found, to_multi,
  to_every_except_multi,
}
use ring_socket.Outbound.Address.{NotMistaken, meant_for, address_lem}
use ring_socket.Outbound.Clients.{received, has_client, times, once, multi_lem}
use ring_socket.Outbound.Errors.{found_excluded, mistaken_for_excluded}

-- A frame of one byte, and four peers of which three are those of app 1.
abbrev frame : List ℕ
frame = 130 ∷ 1 ∷ 65 ∷ 0 ∷ []

abbrev apps : List ℕ
apps = 1 ∷ 0 ∷ 1 ∷ 1 ∷ []

no_peer-NotMistaken : NotMistaken frame (of_app 1 apps 0)
unfolding of_app of_le
no_peer-NotMistaken = (refl, (refl, (refl, tt)))

address_lem_example :
    (recipients 1 apps (send_head every_except_array (0 ∷ 3 ∷ []) ++ frame)
      ≡ meant_for every_except_array (0 ∷ 3 ∷ []) (of_app 1 apps 0))
    × (drop
          (head_size (send_head every_except_array (0 ∷ 3 ∷ []) ++ frame))
          (send_head every_except_array (0 ∷ 3 ∷ []) ++ frame)
        ≡ frame)
address_lem_example =
    address_lem every_except_array (0 ∷ 3 ∷ []) frame 1 apps (omega arith, omega arith)
      (omega arith, (omega arith, tt)) no_peer-NotMistaken

-- Peer 2 of worker 0, twice, and peer 3 of worker 1.
abbrev client_ids : List ℕ
client_ids = (1 + 2 * 2 ^ 32) ∷ (2 + 3 * 2 ^ 32) ∷ (1 + 2 * 2 ^ 32) ∷ []

multi_lem_example :
    (times 2 (received 1 apps frame (to_multi client_ids 0)) ≡ once (has_client 0 2 client_ids))
    × (times 2 (received 1 apps frame (to_every_except_multi client_ids 0))
        ≡ once (elem 2 (of_app 1 apps 0) && not (has_client 0 2 client_ids)))
multi_lem_example = multi_lem 1 apps frame no_peer-NotMistaken client_ids 0 2 (omega arith)

found_excluded_example :
    (is_found 3 (send_head every_except_array (0 ∷ 3 ∷ []) ++ frame) ≡ true)
    × (elem 3 (recipients 1 apps (send_head every_except_array (0 ∷ 3 ∷ []) ++ frame)) ≡ false)
found_excluded_example =
    found_excluded 0 (3 ∷ []) frame 1 apps 3 (omega arith) (omega arith, (omega arith, tt)) refl
      refl

-- An empty frame and two zeros behind it, read as the number 130.
frame_number : of_le (130 ∷ 0 ∷ 0 ∷ 0 ∷ []) ≡ 130
unfolding of_le
frame_number = refl

mistaken_for_excluded_example :
    elem 130
      (recipients 1 apps (send_head every_except_array (0 ∷ 3 ∷ []) ++ (130 ∷ 0 ∷ 0 ∷ 0 ∷ [])))
    ≡ false
mistaken_for_excluded_example =
    mistaken_for_excluded (0 ∷ 3 ∷ []) (130 ∷ 0 ∷ 0 ∷ 0 ∷ []) 1 apps 130 (omega arith) (omega arith)
      (omega arith, (omega arith, tt)) frame_number
