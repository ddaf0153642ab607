-- ===== src/Stream/Word.antt =====
-- src/dousi/core/stream/stream.cc: a uint32_t that is sent or filled through a `char *` to it, so in
-- the byte order of the host.
use dousi.Prelude.{
  ℕ, ◌+◌, ◌*◌, ◌/◌, ◌%◌, ◌^◌, ◌<◌, ◌≤◌, ◌≡◌, ◌≢◌, refl, [], ◌∷◌, Bytes, length, All, arith,
}

pub data ByteOrder : Type 0 where
  little big : ByteOrder

-- HEADER_SIZE
abbrev pub word_size : ℕ
word_size = 4

-- The bytes of a uint32_t, from the lowest address on.
unfoldable pub word_bytes : ByteOrder → ℕ → Bytes
word_bytes little n = (n % 256) ∷ (n / 256 % 256) ∷ (n / 65536 % 256) ∷ (n / 16777216 % 256) ∷ []
word_bytes big n = (n / 16777216 % 256) ∷ (n / 65536 % 256) ∷ (n / 256 % 256) ∷ (n % 256) ∷ []

-- The uint32_t that four bytes are read as.
pub word_of : ByteOrder → Bytes → ℕ
word_of little (a ∷ b ∷ c ∷ d ∷ []) = a + 256 * b + 65536 * c + 16777216 * d
word_of big (a ∷ b ∷ c ∷ d ∷ []) = 16777216 * a + 65536 * b + 256 * c + d
word_of o _ = 0

abbrev pub IsByte : ℕ → Type 0
IsByte b = b < 256

pub length-word_bytes : (o : ByteOrder) (n : ℕ) → length (word_bytes o n) ≡ word_size
unfolding word_bytes
length-word_bytes little n = refl
length-word_bytes big n = refl

pub word_of-word_bytes : (o : ByteOrder) (n : ℕ) → n < 2 ^ 32 → word_of o (word_bytes o n) ≡ n
unfolding word_bytes word_of
word_of-word_bytes little n h = omega arith
word_of-word_bytes big n h = omega arith

pub word_bytes-word_of :
    (o : ByteOrder) (bs : Bytes)
    → length bs ≡ word_size
    → All IsByte bs
    → word_bytes o (word_of o bs) ≡ bs
unfolding word_bytes word_of
word_bytes-word_of o [] h _ = absurd (omega arith)
word_bytes-word_of o (a ∷ []) h _ = absurd (omega arith)
word_bytes-word_of o (a ∷ b ∷ []) h _ = absurd (omega arith)
word_bytes-word_of o (a ∷ b ∷ c ∷ []) h _ = absurd (omega arith)
word_bytes-word_of little (a ∷ b ∷ c ∷ d ∷ []) h r = ground arith
word_bytes-word_of big (a ∷ b ∷ c ∷ d ∷ []) h r = ground arith
word_bytes-word_of o (a ∷ b ∷ c ∷ d ∷ e ∷ bs) h _ = absurd (omega arith)

pub word_of-lt : (o : ByteOrder) (bs : Bytes) → All IsByte bs → word_of o bs < 2 ^ 32
unfolding word_of
word_of-lt little (a ∷ b ∷ c ∷ d ∷ []) r = omega arith
word_of-lt big (a ∷ b ∷ c ∷ d ∷ []) r = omega arith
word_of-lt o _ r = omega arith

pub swapped_word :
    (o o' : ByteOrder) (n : ℕ) → o ≢ o' → 0 < n → n < 2 ^ 16 → 2 ^ 16 ≤ word_of o' (word_bytes o n)
unfolding word_bytes word_of
swapped_word little little n ne _ _ = absurd (ne refl)
swapped_word little big n _ pos small = omega arith
swapped_word big little n _ pos small = omega arith
swapped_word big big n ne _ _ = absurd (ne refl)
