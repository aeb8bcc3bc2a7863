-- ===== src/Pfcp/Bytes.antt =====
-- Big-endian integers as `encoding/binary` writes and reads them.
use pdu_session_sim.Common.{
  ℕ, ◌+◌, ◌*◌, ◌/◌, ◌%◌, ◌^◌, ◌<◌, ◌≡◌, List, [], ◌∷◌, ◌++◌, get_or, arith, zero, suc, All, drop,
}

unfoldable pub put_uint16 : ℕ → List ℕ
put_uint16 v = (v / 2 ^ 8 % 2 ^ 8) ∷ (v % 2 ^ 8) ∷ []

unfoldable pub put_uint32 : ℕ → List ℕ
put_uint32 v = (v / 2 ^ 24 % 2 ^ 8) ∷ (v / 2 ^ 16 % 2 ^ 8) ∷ (v / 2 ^ 8 % 2 ^ 8) ∷ (v % 2 ^ 8) ∷ []

unfoldable pub uint16 : List ℕ → ℕ
uint16 b = get_or b 0 0 * 2 ^ 8 + get_or b 1 0

unfoldable pub uint32 : List ℕ → ℕ
uint32 b = get_or b 0 0 * 2 ^ 24 + get_or b 1 0 * 2 ^ 16 + get_or b 2 0 * 2 ^ 8 + get_or b 3 0

-- What is written is read back, whatever follows it.
pub uint16-put_uint16 : (v : ℕ) (rest : List ℕ) → v < 2 ^ 16 → uint16 (put_uint16 v ++ rest) ≡ v
unfolding uint16 put_uint16
uint16-put_uint16 v rest h = omega arith

pub uint32-put_uint32 : (v : ℕ) (rest : List ℕ) → v < 2 ^ 32 → uint32 (put_uint32 v ++ rest) ≡ v
unfolding uint32 put_uint32
uint32-put_uint32 v rest h = omega arith

-- A datagram: each entry is a byte.
abbrev pub AreBytes : List ℕ → Type 0
AreBytes = All (λ b. b < 2 ^ 8)

get_or-lt : (bytes : List ℕ) (i : ℕ) → AreBytes bytes → get_or bytes i 0 < 2 ^ 8
get_or-lt [] i h = omega arith
get_or-lt (b ∷ bytes) zero h = h.0
get_or-lt (b ∷ bytes) (suc i) h = get_or-lt bytes i h.1

pub drop-AreBytes : (n : ℕ) (bytes : List ℕ) → AreBytes bytes → AreBytes (drop n bytes)
drop-AreBytes zero bytes h = h
drop-AreBytes (suc n) [] h = tt
drop-AreBytes (suc n) (b ∷ bytes) h = drop-AreBytes n bytes h.1

pub uint32-lt : (bytes : List ℕ) → AreBytes bytes → uint32 bytes < 2 ^ 32
unfolding uint32
uint32-lt bytes h =
    omega
      (arith, get_or-lt bytes 0 h, get_or-lt bytes 1 h, get_or-lt bytes 2 h, get_or-lt bytes 3 h)
