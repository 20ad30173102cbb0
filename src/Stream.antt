-- ===== src/Stream.antt =====
-- utils/serialization_util.cpp: big-endian words on the standard library's streams.
pub mod Laws
pub mod Places
use rdfcache_k.Prelude.{
  ℕ, zero, suc, ◌+◌, ◌*◌, ◌/◌, ◌%◌, ◌^◌, List, [], ◌∷◌, ◌++◌, length, get_or, take, drop, Result,
  Error, ok, err, undefined, ◌>>=◌ as bind,
}

-- An output stream is the bytes written so far and the put position.
pub record OStream : Type 0 where
  pub content : List ℕ
  pub put_pos : ℕ

unfoldable pub empty : OStream
empty = record { content = []; put_pos = 0 }

unfoldable pub tellp : OStream → ℕ
tellp os = os.put_pos

unfoldable pub seekp : OStream → ℕ → OStream
seekp os pos = record os { put_pos = pos }

-- `std::ostream::write`: the bytes replace what stands at the put position, which moves behind them.
unfoldable pub write : OStream → List ℕ → OStream
write os bytes = record {
  content = take os.put_pos os.content ++ (bytes ++ drop (os.put_pos + length bytes) os.content);
  put_pos = os.put_pos + length bytes;
}

-- The bytes of `htons(v)`, `htonl(v)` and `htobe64(v)` in memory. The conversion to the parameter's
-- type keeps the low bits, which are all that the digits read.
unfoldable pub u16_bytes : ℕ → List ℕ
u16_bytes v = v / 2 ^ 8 % 2 ^ 8 ∷ v % 2 ^ 8 ∷ []

unfoldable pub u32_bytes : ℕ → List ℕ
u32_bytes v = v / 2 ^ 24 % 2 ^ 8 ∷ v / 2 ^ 16 % 2 ^ 8 ∷ v / 2 ^ 8 % 2 ^ 8 ∷ v % 2 ^ 8 ∷ []

unfoldable pub u64_bytes : ℕ → List ℕ
unfolding u32_bytes
u64_bytes v = u32_bytes (v / 2 ^ 32) ++ u32_bytes v

unfoldable pub write_u16 : OStream → ℕ → OStream
write_u16 os v = write os (u16_bytes v)

unfoldable pub write_u32 : OStream → ℕ → OStream
write_u32 os v = write os (u32_bytes v)

unfoldable pub write_u64 : OStream → ℕ → OStream
write_u64 os v = write os (u64_bytes v)

-- The loop that writes the items of an array.
unfoldable pub write_items : OStream → List ℕ → OStream
write_items os [] = os
write_items os (v ∷ vs) = write_items (write_u32 os v) vs

unfoldable pub write_u32_array : OStream → List ℕ → OStream
write_u32_array os array = write_items (write_u32 os (length array)) array

-- An input stream is the bytes that are left. A read beyond the end takes what is left and fails,
-- and so does every later one, as at the end of no bytes.
abbrev pub IStream : Type 0
IStream = List ℕ

-- A reader may also throw, or use a value that nothing has set.
abbrev pub Reader {ℓ} : Type ℓ → Type ℓ
Reader A = IStream → Result (A × IStream)

abbrev pub pure {ℓ} : {A : Type ℓ} → A → Reader A
pure a is = ok (a, is)

abbrev pub throws {ℓ} : {A : Type ℓ} → Error → Reader A
throws e is = err e

module _ {ℓ κ} {A : Type ℓ} {B : Type κ} where
  infixl 5 ◌>>=◌
  abbrev pub ◌>>=◌ : Reader A → (A → Reader B) → Reader B
  m >>= f = λ is. bind (m is) λ (a, rest). f a rest

-- `result` has no initial value, so a short read leaves it undefined.
unfoldable pub read_u16 : Reader ℕ
read_u16 (a ∷ b ∷ rest) = ok (a * 2 ^ 8 + b, rest)
read_u16 _ = err undefined

-- `result` starts as zero, so a short read leaves its last bytes zero.
unfoldable pub read_u32 : Reader ℕ
read_u32 is = ok (
  get_or is 0 0 * 2 ^ 24 + get_or is 1 0 * 2 ^ 16 + get_or is 2 0 * 2 ^ 8 + get_or is 3 0,
  drop 4 is,
)

unfoldable pub read_u64 : Reader ℕ
read_u64 is = ok (
  (get_or is 0 0 * 2 ^ 24 + get_or is 1 0 * 2 ^ 16 + get_or is 2 0 * 2 ^ 8 + get_or is 3 0) * 2 ^ 32
      + (get_or is 4 0 * 2 ^ 24 + get_or is 5 0 * 2 ^ 16 + get_or is 6 0 * 2 ^ 8 + get_or is 7 0),
  drop 8 is,
)

-- `for (i = 0; i < n; i++) items.push_back(read(is))`.
unfoldable pub read_items {ℓ} : {A : Type ℓ} → Reader A → ℕ → Reader (List A)
read_items read zero = pure []
read_items read (suc n) = do item ← read; items ← read_items read n; pure (item ∷ items)

pub read_u32_array : Reader (List ℕ)
read_u32_array = do array_size ← read_u32; read_items read_u32 array_size
