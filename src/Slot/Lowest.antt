-- ===== src/Slot/Lowest.antt =====
-- `alloc_slot` on a well-formed bitmap.
use Prim.Native.Nat.{bit_or}
use mathlib.Core.Path.{subst}
use native.Mathlib.Numerals.{add-one}
use native.Mathlib.Decide.{dec_lt}
use ring_socket.Prelude.{
  ℕ, zero, suc, ◌+◌, ◌*◌, ◌/◌, ◌%◌, ◌≤◌, ◌<◌, ◌≡◌, ◌≢◌, ◌⊎◌, inl, inr, refl, ap, ◌∙◌, Bool, true,
  false, not, Option, none, some, List, arith, if◌then◌else◌, ◌==◌, Bool-cases, length, get_elem?,
  set, All, All-get_elem?, All-set, get_elem?_in, get_elem?_out, get_elem?_lt, get_elem?-set_self,
  get_elem?-set_ne, length-set,
}
use ring_socket.Slot.{Slots, Alloc, fault, again, done, mask, scan, alloc_slot}
use ring_socket.Slot.Bits.{is_clear, clear-set, set-lt}
use ring_socket.Wire.Bytes.{IsByte}

-- The slot's bit is set. A slot that lies outside of the bitmap counts as taken.
abbrev taken_bit : Option ℕ → ℕ → Bool
taken_bit none k = true
taken_bit (some b) k = not (is_clear b k)

unfoldable pub taken : List ℕ → ℕ → Bool
taken bytes j = taken_bit (get_elem? bytes (j / 8)) (j % 8)

-- The bitmap of `slot_c` slots: one bit a slot, the bits left over are set, and no slot below `i` is
-- free.
pub record IsValid (slot_c : ℕ) (s : Slots) : Type 0 where
  pub size : length s.bytes ≡ (slot_c + 7) / 8
  pub bytes_fit : All IsByte s.bytes
  pub padded : (j : ℕ) → slot_c ≤ j → taken s.bytes j ≡ true
  pub low_taken : (j : ℕ) → j < s.i → taken s.bytes j ≡ true

pub taken_out : (bytes : List ℕ) (j : ℕ) → length bytes ≤ j / 8 → taken bytes j ≡ true
unfolding taken
taken_out bytes j h = ap (λ o. taken_bit o (j % 8)) (get_elem?_out bytes (j / 8) h)

pub taken_at :
    (bytes : List ℕ) (j b : ℕ)
    → get_elem? bytes (j / 8) ≡ some b
    → taken bytes j ≡ not (is_clear b (j % 8))
unfolding taken
taken_at bytes j b e = ap (λ o. taken_bit o (j % 8)) e

pub taken_byte :
    (xs ys : List ℕ) (j : ℕ) → get_elem? xs (j / 8) ≡ get_elem? ys (j / 8) → taken xs j ≡ taken ys j
unfolding taken
taken_byte xs ys j e = ap (λ o. taken_bit o (j % 8)) e

-- Setting a slot's bit takes that slot and no other.
pub taken-set :
    (bytes : List ℕ) (i b j : ℕ)
    → All IsByte bytes
    → get_elem? bytes (i / 8) ≡ some b
    → taken (set bytes (i / 8) (bit_or b (mask i))) j ≡ (if j == i then true else taken bytes j)
taken-set bytes i b j all e =
    let lt : i / 8 < length bytes = get_elem?_lt bytes (i / 8) b e in
    let b_fits : b < 256 = All-get_elem? IsByte bytes (i / 8) b all e in
    let b' = bit_or b (mask i) in
    elim (Bool-cases (j / 8 == i / 8)) [
      | inl same_byte ↦
          let q : i / 8 ≡ j / 8 = ground arith in
          ground (
            arith,
            taken_at (set bytes (i / 8) b') j b' (
                subst (λ t. get_elem? (set bytes (i / 8) b') t ≡ some b') q
                  (get_elem?-set_self bytes (i / 8) b' lt)),
            taken_at bytes j b (rw q at e),
            clear-set b (i % 8) (j % 8) b_fits (omega arith) (omega arith),
          )
      | inr other ↦ ground (
        arith,
        taken_byte (set bytes (i / 8) b') bytes j
            (get_elem?-set_ne bytes (i / 8) (j / 8) b' (λ p. ground arith)),
      )
    ]

-- What the scan from slot `i` finds: a free slot, with none in front of it, or none at all.
pub record Found (bytes : List ℕ) (i j : ℕ) : Type 0 where
  pub from : i ≤ j
  pub inside : j / 8 < length bytes
  pub free : taken bytes j ≡ false
  pub lowest : (k : ℕ) → i ≤ k → k < j → taken bytes k ≡ true

abbrev pub Scanned : List ℕ → ℕ → Alloc → Type 0
Scanned bytes i r =
    ((j b : ℕ) × Found bytes i j
      × (get_elem? bytes (j / 8) ≡ some b)
      × (r ≡ done j (record { bytes = set bytes (j / 8) (bit_or b (mask j)); i = j })))
    ⊎ (((k : ℕ) → i ≤ k → k < 8 * length bytes → taken bytes k ≡ true)
        × (r ≡ again (record { bytes = bytes; i = 8 * length bytes })))

-- One slot more, found taken.
Scanned-suc :
    (bytes : List ℕ) (i : ℕ) (r : Alloc)
    → taken bytes i ≡ true
    → Scanned bytes (i + 1) r
    → Scanned bytes i r
Scanned-suc bytes i r t (inl (j, b, f, e, q)) = inl (
  j,
  b,
  record {
    from = omega (arith, f.from);
    inside = f.inside;
    free = f.free;
    lowest = λ k h h'. elim (Bool-cases (k == i)) [
      | inl at ↦ ap (taken bytes) (ground arith) ∙ t
      | inr above ↦ f.lowest k (ground arith) h'
    ];
  },
  e,
  q,
)
Scanned-suc bytes i r t (inr (all, q)) = inr (
  λ k h h'. elim (Bool-cases (k == i)) [
    | inl at ↦ ap (taken bytes) (ground arith) ∙ t
    | inr above ↦ all k (ground arith) h'
  ],
  q,
)

-- One round of the scan at a byte that is there.
module _ (fuel : ℕ) (bytes : List ℕ) (p i b : ℕ) (at : get_elem? bytes p ≡ some b) where
  scan_free :
      is_clear b (i % 8) ≡ true
      → scan (suc fuel) bytes p i
        ≡ done i (record { bytes = set bytes p (bit_or b (mask i)); i = i })
  unfolding scan
  scan_free h = rw (at, scan) (rw h)

  scan_same_byte :
      is_clear b (i % 8) ≡ false
      → (i + 1) % 8 ≢ 0
      → scan (suc fuel) bytes p i ≡ scan fuel bytes p (i + 1)
  unfolding scan
  scan_same_byte h ne = rw (at, scan) (rw h (ground arith))

  scan_next_byte :
      is_clear b (i % 8) ≡ false
      → (i + 1) % 8 ≡ 0
      → p + 1 < length bytes
      → scan (suc fuel) bytes p i ≡ scan fuel bytes (p + 1) (i + 1)
  unfolding scan
  scan_next_byte h e lt = rw (at, scan) (rw h (ground arith))

  scan_full :
      is_clear b (i % 8) ≡ false
      → (i + 1) % 8 ≡ 0
      → length bytes ≤ p + 1
      → scan (suc fuel) bytes p i ≡ again (record { bytes = bytes; i = i + 1 })
  unfolding scan
  scan_full h e le = rw (at, scan) (rw h (ground arith))

Scanned-at :
    (bytes : List ℕ) (i : ℕ) (r r' : Alloc) → r ≡ r' → Scanned bytes i r' → Scanned bytes i r
Scanned-at bytes i r r' e s = rw e s

scan_from :
    (fuel : ℕ) (bytes : List ℕ) (p i b : ℕ)
    → ((p' : ℕ)
        → p' ≡ (i + 1) / 8
        → p' < length bytes
        → Scanned bytes (i + 1) (scan fuel bytes p' (i + 1)))
    → p ≡ i / 8
    → p < length bytes
    → get_elem? bytes p ≡ some b
    → Scanned bytes i (scan (suc fuel) bytes p i)
scan_from fuel bytes p i b rest e lt at =
    let at' : get_elem? bytes (i / 8) ≡ some b = subst (λ t. get_elem? bytes t ≡ some b) e at in
    elim (Bool-cases (is_clear b (i % 8))) [
      | inl free ↦ inl (
        i,
        b,
        record {
          from = omega arith;
          inside = omega arith;
          free = ground (arith, taken_at bytes i b at');
          lowest = λ k h h'. absurd (omega arith);
        },
        at',
        scan_free fuel bytes p i b at free
            ∙ ap (λ t. done i (record { bytes = set bytes t (bit_or b (mask i)); i = i })) e,
      )
      | inr used ↦
          let t : taken bytes i ≡ true = ground (arith, taken_at bytes i b at') in
          elim (dec_lt 0 ((i + 1) % 8)) [
            | yes within ↦ Scanned-suc bytes i _ t (
                rw (scan_same_byte fuel bytes p i b at used (omega arith))
                  (rest p (omega arith) lt))
            | no over ↦ elim (dec_lt (p + 1) (length bytes)) [
              | yes more ↦ Scanned-suc bytes i _ t (
                  rw (scan_next_byte fuel bytes p i b at used (omega arith) more)
                    (rest (p + 1) (omega arith) more))
              | no last ↦ Scanned-suc bytes i _ t (
                  inr (
                    λ k h h'. absurd (omega arith),
                    scan_full fuel bytes p i b at used (omega arith) (omega arith)
                        ∙ ap (λ k. again (record { bytes = bytes; i = k })) (omega arith),
                  ))
            ]
          ]
    ]

scan-Scanned :
    (fuel : ℕ) (bytes : List ℕ) (p i : ℕ)
    → p ≡ i / 8
    → p < length bytes
    → 8 * length bytes < i + fuel
    → Scanned bytes i (scan fuel bytes p i)
scan-Scanned zero bytes p i e lt f = absurd (omega arith)
scan-Scanned (suc fuel) bytes p i e lt f =
    let (b, at) = get_elem?_in bytes p lt in
    scan_from fuel bytes p i b
      (λ p' e' lt'. scan-Scanned fuel bytes p' (i + 1) e' lt' (omega arith)) e lt at

-- A slot was handed out: the lowest free one, which is now taken, and no other slot changed.
pub record Allocated (slot_c : ℕ) (s : Slots) (j : ℕ) (s' : Slots) : Type 0 where
  pub in_range : j < slot_c
  pub was_free : taken s.bytes j ≡ false
  pub lowest : (k : ℕ) → k < j → taken s.bytes k ≡ true
  pub now : (k : ℕ) → taken s'.bytes k ≡ (if k == j then true else taken s.bytes k)
  pub next_search : s'.i ≡ j
  pub valid : IsValid slot_c s'

-- No slot was free: the bitmap is unchanged, and the search is to begin behind its end.
pub record Full (slot_c : ℕ) (s s' : Slots) : Type 0 where
  pub all_taken : (k : ℕ) → taken s.bytes k ≡ true
  pub unchanged : s'.bytes ≡ s.bytes
  pub at_end : s'.i ≡ 8 * length s.bytes
  pub valid : IsValid slot_c s'

abbrev pub AllocPost : ℕ → Slots → Alloc → Type 0
AllocPost slot_c s r =
    ((j : ℕ) × (s' : Slots) × (r ≡ done j s') × Allocated slot_c s j s')
    ⊎ ((s' : Slots) × (r ≡ again s') × Full slot_c s s')

Scanned-AllocPost :
    (slot_c : ℕ) (s : Slots) (r : Alloc)
    → IsValid slot_c s
    → Scanned s.bytes s.i r
    → AllocPost slot_c s r
Scanned-AllocPost slot_c s r v (inl (j, b, f, at, e)) =
    let b_fits : b < 256 = All-get_elem? IsByte s.bytes (j / 8) b v.bytes_fit at in
    let now : (k : ℕ)
        → taken (set s.bytes (j / 8) (bit_or b (mask j))) k
          ≡ (if k == j then true else taken s.bytes k) =
      λ k. taken-set s.bytes j b k v.bytes_fit at in
    let low : (k : ℕ) → k < j → taken s.bytes k ≡ true = λ k h. elim (dec_lt k s.i) [
      | yes below ↦ v.low_taken k below
      | no above ↦ f.lowest k (omega arith) h
    ] in
    inl (
      j,
      record { bytes = set s.bytes (j / 8) (bit_or b (mask j)); i = j },
      e,
      record {
        in_range = elim (dec_lt j slot_c) [
          | yes h ↦ h
          | no h ↦ cc (f.free, v.padded j (omega arith))
        ];
        was_free = f.free;
        lowest = low;
        now = now;
        next_search = refl;
        valid = record {
          size = length-set s.bytes (j / 8) (bit_or b (mask j)) ∙ v.size;
          bytes_fit =
              All-set IsByte s.bytes (j / 8) (bit_or b (mask j))
                (set-lt b (j % 8) 0 b_fits (omega arith) (omega arith)) v.bytes_fit;
          padded = λ k h. ground (arith, now k, v.padded k h);
          low_taken = λ k h. ground (arith, now k, low k h);
        };
      },
    )
Scanned-AllocPost slot_c s r v (inr (all, e)) =
    let every : (k : ℕ) → taken s.bytes k ≡ true = λ k. elim (dec_lt k s.i) [
      | yes below ↦ v.low_taken k below
      | no above ↦ elim (dec_lt k (8 * length s.bytes)) [
        | yes inside ↦ all k (omega arith) inside
        | no outside ↦ taken_out s.bytes k (omega arith)
      ]
    ] in
    inr (
      record { bytes = s.bytes; i = 8 * length s.bytes },
      e,
      record {
        all_taken = every;
        unchanged = refl;
        at_end = refl;
        valid = record {
          size = v.size;
          bytes_fit = v.bytes_fit;
          padded = v.padded;
          low_taken = λ k h. every k;
        };
      },
    )

-- On a well-formed bitmap, while the search begins inside of it, `alloc_slot` makes no access outside
-- of it and keeps it well formed. It hands out the lowest free slot, takes it and changes no other;
-- or all slots are taken and it returns RS_AGAIN.
pub alloc_slot_lem :
    (slot_c : ℕ) (s : Slots)
    → IsValid slot_c s
    → s.i < 8 * length s.bytes
    → AllocPost slot_c s (alloc_slot s)
unfolding alloc_slot
alloc_slot_lem slot_c s v h =
    Scanned-AllocPost slot_c s _ v
      (scan-Scanned (8 * length s.bytes + 1) s.bytes (s.i / 8) s.i refl (omega arith) (omega arith))

alloc_slot_past : (s : Slots) → 8 * length s.bytes ≤ s.i → alloc_slot s ≡ fault
unfolding alloc_slot scan
alloc_slot_past s h = rw (add-one, get_elem?_out s.bytes (s.i / 8) (omega arith), scan)

again_past :
    (s s' : Slots) (r : Alloc) → Scanned s.bytes s.i r → r ≡ again s' → 8 * length s'.bytes ≤ s'.i
again_past s s' r (inl (j, b, f, at, e)) e' = absurd (ground arith)
again_past s s' r (inr (all, e)) e' = ground arith

-- Once `alloc_slot` has returned RS_AGAIN, calling it again before a slot is freed reads the byte
-- behind the bitmap.
pub alloc_slot_again : (s s' : Slots) → alloc_slot s ≡ again s' → alloc_slot s' ≡ fault
unfolding alloc_slot
alloc_slot_again s s' e = elim (dec_lt s.i (8 * length s.bytes)) [
  | yes h ↦ alloc_slot_past s' (
      again_past s s' _
        (scan-Scanned (8 * length s.bytes + 1) s.bytes (s.i / 8) s.i refl (omega arith)
          (omega arith))
        e)
  | no h ↦ cc (alloc_slot_past s (omega arith))
]
