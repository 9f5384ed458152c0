-- ===== src/EidGenerator.antt =====
-- FMDNCrypto/eid_generator.py: the block that an ephemeral id is made from, over bytes as numbers.
-- AES, and the point of the curve behind a scalar, are arguments; the order of the curve is one too.
pub mod Blocks
mod Tests
use google_find_my_tools_web.Prelude.{
  ◌/◌, zero, ◌^◌, ◌+◌, ◌%◌, none, ◌*◌, ltb, suc, [], ◌∷◌, some, ◌-◌, if◌then◌else◌, ◌++◌, ℕ, Option,
  List,
}

-- `K` and `ROTATION_PERIOD`
abbrev pub low_bits : ℕ
low_bits = 10

abbrev pub rotation_period : ℕ
rotation_period = 1024

-- `timestamp & ~((1 << K) - 1)`
pub masked : ℕ → ℕ
masked timestamp = timestamp - timestamp % 2 ^ low_bits

-- `to_bytes(4, byteorder="big")`, `None` for the OverflowError.
pub to_bytes : ℕ → Option (List ℕ)
to_bytes n =
    if ltb n (2 ^ 32)
    then some (n / 2 ^ 24 ∷ n / 2 ^ 16 % 256 ∷ n / 2 ^ 8 % 256 ∷ n % 256 ∷ [])
    else none

pub get_masked_timestamp : ℕ → Option (List ℕ)
unfolding masked to_bytes
get_masked_timestamp timestamp = to_bytes (masked timestamp)

pub repeat : ℕ → ℕ → List ℕ
repeat zero byte = []
repeat (suc n) byte = byte ∷ repeat n byte

block_of : List ℕ → List ℕ
unfolding repeat
block_of ts_bytes =
    repeat 11 255 ++ (low_bits ∷ []) ++ ts_bytes ++ repeat 11 0 ++ (low_bits ∷ []) ++ ts_bytes

fmap_block : Option (List ℕ) → Option (List ℕ)
unfolding block_of
fmap_block none = none
fmap_block (some ts_bytes) = some (block_of ts_bytes)

-- `data`, as it is encrypted.
pub block : ℕ → Option (List ℕ)
unfolding get_masked_timestamp fmap_block
block timestamp = fmap_block (get_masked_timestamp timestamp)

-- `int.from_bytes(..., byteorder="big")`, from a value on.
pub from_bytes : ℕ → List ℕ → ℕ
from_bytes n [] = n
from_bytes n (byte ∷ bytes) = from_bytes (n * 256 + byte) bytes

scalar_of : (order : ℕ) → Option (List ℕ) → Option ℕ
unfolding from_bytes
scalar_of order none = none
scalar_of order (some r_dash) = some (from_bytes 0 r_dash % order)

encrypted : (List ℕ → List ℕ) → Option (List ℕ) → Option (List ℕ)
encrypted encrypt none = none
encrypted encrypt (some bytes) = some (encrypt bytes)

-- `encrypt` is the cipher with the identity key.
pub calculate_r : (encrypt : List ℕ → List ℕ) → (order : ℕ) → (timestamp : ℕ) → Option ℕ
unfolding block scalar_of encrypted
calculate_r encrypt order timestamp = scalar_of order (encrypted encrypt (block timestamp))
