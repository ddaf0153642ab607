-- ===== src/Stream/Transport/Defs.antt =====
-- The contract of boost::asio::async_read, a parameter of the model.
use dousi.Prelude.{ℕ, ◌<◌, ◌≡◌, ◌++◌, Bytes, length}

-- What a completion handler is called with: an error code, or the buffer filled.
pub data Completion : Type 0 where
  failed : (error_code : ℕ) → Completion
  received : (bytes : Bytes) → Completion

-- `async_read` over what the peer still has to send before it closes the connection. Its documented
-- contract: it completes when the whole buffer is filled, or with an error.
pub record AsyncRead : Type 0 where
  pub read : ℕ → Bytes → Completion × Bytes
  pub read_full : (xs rest : Bytes) → read (length xs) (xs ++ rest) ≡ (received xs, rest)
  pub read_short : (n : ℕ) (wire : Bytes) → length wire < n → (e : ℕ) × ((read n wire).0 ≡ failed e)
  pub read_exact :
      (n : ℕ) (wire xs : Bytes)
      → (read n wire).0 ≡ received xs
      → (length xs ≡ n) × (wire ≡ xs ++ (read n wire).1)
