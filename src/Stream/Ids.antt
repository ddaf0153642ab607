-- ===== src/Stream/Ids.antt =====
-- What the reader of a frame can tell of the object id that was given to `Write`.
use dousi.Prelude.{
  ℕ, ◌%◌, ◌^◌, ◌≡◌, ◌↔◌, ap, sym, subst, ◌∙◌, ◌++◌, Bytes, length, take, take-append, arith,
}
use dousi.Stream.{write}
use dousi.Stream.Word.{
  ByteOrder, word_bytes, word_of, word_size, length-word_bytes, word_of-word_bytes,
}

-- The first word of a frame is the object id modulo 2 ^ 32.
word_of-write :
    (o : ByteOrder) (oid : ℕ) (bytes : Bytes)
    → word_of o (take word_size (write o oid bytes)) ≡ oid % 2 ^ 32
unfolding write
word_of-write o oid bytes =
    let n = oid % 2 ^ 32 in
    let rest = word_bytes o (length bytes % 2 ^ 32) ++ bytes in
    let front : take word_size (word_bytes o n ++ rest) ≡ word_bytes o n =
      subst (λ k. take k (word_bytes o n ++ rest) ≡ word_bytes o n) (length-word_bytes o n)
        (take-append (word_bytes o n) rest) in
    ap (word_of o) front ∙ word_of-word_bytes o n (omega arith)

pub write-eq_iff :
    (o : ByteOrder) (i j : ℕ) (bytes : Bytes)
    → (write o i bytes ≡ write o j bytes) ↔ (i % 2 ^ 32 ≡ j % 2 ^ 32)
unfolding write
write-eq_iff o i j bytes = (
  λ same.
      sym (word_of-write o i bytes)
      ∙ ap (λ w. word_of o (take word_size w)) same
      ∙ word_of-write o j bytes,
  λ same. ap (λ k. word_bytes o k ++ (word_bytes o (length bytes % 2 ^ 32) ++ bytes)) same,
)
