-- ===== src/Wire/Bytes.antt =====
-- ringsocket_api.h: integers in network byte order, as the RS_[R|W]_[N|H]TO[H|N] macros read and
-- write them on a machine of either byte order.
use mathlib.Core.List.{reverse-reverse, reverse-append}
use mathlib.Core.Path.{ap₂}
use native.Mathlib.Nat.{mod-eq_of_lt, pow-suc}
use ring_socket.Prelude.{
  ℕ, zero, suc, ◌+◌, ◌*◌, ◌/◌, ◌%◌, ◌^◌, ◌<◌, ◌≡◌, refl, ap, ◌∙◌, Bool, true, false, List, [], ◌∷◌,
  arith, if◌then◌else◌, length, length-reverse, reverse, All, All-append,
}

abbrev pub IsByte : ℕ → Type 0
IsByte b = b < 256

-- The `k` bytes of an integer, lowest first, and the integer of such bytes.
unfoldable pub le_bytes : ℕ → ℕ → List ℕ
le_bytes zero n = []
le_bytes (suc k) n = (n % 256) ∷ le_bytes k (n / 256)

unfoldable pub of_le : List ℕ → ℕ
of_le [] = 0
of_le (b ∷ bs) = b + 256 * of_le bs

-- Network byte order: highest first.
unfoldable pub be_bytes : ℕ → ℕ → List ℕ
unfolding le_bytes
be_bytes k n = reverse (le_bytes k n)

unfoldable pub of_be : List ℕ → ℕ
unfolding of_le
of_be bs = of_le (reverse bs)

-- What a machine stores for a `k`-byte integer, and what it reads; `little` is RS_IS_LITTLE_ENDIAN.
store : Bool → ℕ → ℕ → List ℕ
unfolding be_bytes
store little k n = if little then le_bytes k n else be_bytes k n

load : Bool → List ℕ → ℕ
unfolding of_be
load little bs = if little then of_le bs else of_be bs

-- `__builtin_bswap{16,32,64}` of a `k`-byte integer.
bswap : ℕ → ℕ → ℕ
unfolding le_bytes of_be
bswap k n = of_be (le_bytes k n)

-- RS_NTOH16 and its kin, which are also RS_HTON16 and its kin; the cast drops the high bytes.
unfoldable pub ntoh : Bool → ℕ → ℕ → ℕ
unfolding bswap
ntoh little k n = if little then bswap k (n % 256 ^ k) else n % 256 ^ k

-- RS_R_NTOH16(ptr) and its kin: the bytes are those at `ptr`.
unfoldable pub r_ntoh : Bool → List ℕ → ℕ
unfolding load ntoh
r_ntoh little bs = ntoh little (length bs) (load little bs)

-- RS_W_HTON16(ptr, n) and its kin: the bytes stored at `ptr`.
unfoldable pub w_hton : Bool → ℕ → ℕ → List ℕ
unfolding store ntoh
w_hton little k n = store little k (ntoh little k n)

pub length-le_bytes : (k n : ℕ) → length (le_bytes k n) ≡ k
unfolding le_bytes
length-le_bytes zero n = refl
length-le_bytes (suc k) n = ap suc (length-le_bytes k (n / 256))

pub length-be_bytes : (k n : ℕ) → length (be_bytes k n) ≡ k
unfolding be_bytes
length-be_bytes k n = length-reverse (le_bytes k n) ∙ length-le_bytes k n

-- The low byte and the others of a number below a power of 256.
mod_split : (n k : ℕ) → n % 256 + 256 * (n / 256 % 256 ^ k) ≡ n % 256 ^ suc k
mod_split n k = rw pow-suc (grind arith)

pub of_le-le_bytes : (k n : ℕ) → of_le (le_bytes k n) ≡ n % 256 ^ k
unfolding of_le le_bytes
of_le-le_bytes zero n = omega arith
of_le-le_bytes (suc k) n = rw (of_le-le_bytes k (n / 256)) (mod_split n k)

of_le-lt : (bs : List ℕ) → All IsByte bs → of_le bs < 256 ^ length bs
unfolding of_le
of_le-lt [] h = omega arith
of_le-lt (b ∷ bs) h = omega (arith, of_le-lt bs h.1, pow-suc 256 (length bs))

le_bytes-of_le : (bs : List ℕ) (k : ℕ) → k ≡ length bs → All IsByte bs → le_bytes k (of_le bs) ≡ bs
unfolding of_le le_bytes
le_bytes-of_le [] zero e h = refl
le_bytes-of_le [] (suc k) e h = absurd (omega arith)
le_bytes-of_le (b ∷ bs) zero e h = absurd (omega arith)
le_bytes-of_le (b ∷ bs) (suc k) e h =
    ap₂ ◌∷◌ (omega arith) (ap (le_bytes k) (omega arith) ∙ le_bytes-of_le bs k (omega arith) h.1)

le_bytes-mod : (k n : ℕ) → le_bytes k (n % 256 ^ k) ≡ le_bytes k n
unfolding le_bytes
le_bytes-mod zero n = refl
le_bytes-mod (suc k) n =
    rw (← mod_split n k)
      (ap₂ ◌∷◌ (omega arith) (ap (le_bytes k) (omega arith) ∙ le_bytes-mod k (n / 256)))

pub le_bytes-IsByte : (k n : ℕ) → All IsByte (le_bytes k n)
unfolding le_bytes
le_bytes-IsByte zero n = tt
le_bytes-IsByte (suc k) n = (omega arith, le_bytes-IsByte k (n / 256))

reverse-IsByte : (bs : List ℕ) → All IsByte bs → All IsByte (reverse bs)
reverse-IsByte [] h = tt
reverse-IsByte (b ∷ bs) h =
    rw (reverse-append (b ∷ []) bs)
      (All-append IsByte (reverse bs) (b ∷ []) (reverse-IsByte bs h.1) (h.0, tt))

pub be_bytes-IsByte : (k n : ℕ) → All IsByte (be_bytes k n)
unfolding be_bytes
be_bytes-IsByte k n = reverse-IsByte (le_bytes k n) (le_bytes-IsByte k n)

pub of_be-be_bytes : (k n : ℕ) → of_be (be_bytes k n) ≡ n % 256 ^ k
unfolding of_be be_bytes
of_be-be_bytes k n = rw (reverse-reverse (le_bytes k n)) (of_le-le_bytes k n)

pub of_be-lt : (bs : List ℕ) → All IsByte bs → of_be bs < 256 ^ length bs
unfolding of_be
of_be-lt bs h = rw (← length-reverse bs) (of_le-lt (reverse bs) (reverse-IsByte bs h))

-- Whatever the byte order of the machine, the macros that write an integer write its bytes highest
-- first, and drop what lies above the integer's width.
pub w_hton-eq-be_bytes : (little : Bool) (k n : ℕ) → w_hton little k n ≡ be_bytes k n
unfolding w_hton be_bytes
w_hton-eq-be_bytes true k n =
    le_bytes-of_le (reverse (le_bytes k (n % 256 ^ k))) k
      (omega (arith, length-reverse (le_bytes k (n % 256 ^ k)), length-le_bytes k (n % 256 ^ k)))
      (reverse-IsByte _ (le_bytes-IsByte k (n % 256 ^ k)))
    ∙ ap reverse (le_bytes-mod k n)
w_hton-eq-be_bytes false k n = ap reverse (le_bytes-mod k n)

-- Whatever the byte order of the machine, the macros that read an integer take the first byte for
-- the highest.
pub r_ntoh-eq-of_be : (little : Bool) (bs : List ℕ) → All IsByte bs → r_ntoh little bs ≡ of_be bs
unfolding r_ntoh
r_ntoh-eq-of_be true bs h = ap of_be (
    ap (le_bytes (length bs)) (mod-eq_of_lt (of_le-lt bs h)) ∙ le_bytes-of_le bs (length bs) refl h)
r_ntoh-eq-of_be false bs h = mod-eq_of_lt (of_be-lt bs h)

-- An integer written on a machine of one byte order and read on one of any byte order is the
-- integer again, cut to its width.
pub r_ntoh-w_hton :
    (writer reader : Bool) (k n : ℕ) → r_ntoh reader (w_hton writer k n) ≡ n % 256 ^ k
r_ntoh-w_hton writer reader k n =
    rw (w_hton-eq-be_bytes writer k n)
      (r_ntoh-eq-of_be reader (be_bytes k n) (be_bytes-IsByte k n) ∙ of_be-be_bytes k n)
