-- ===== src/Submitter/ObjectIds.antt =====
-- The object ids of src/dousi/core/submitter/submitter.h: 64 bits at the caller, 32 on the wire.
use dousi.Prelude.{
  ℕ, zero, suc, ◌+◌, ◌%◌, ◌^◌, ◌<◌, ◌≡◌, ◌↔◌, ap, ◌∙◌, List, [], ◌∷◌, some, Bytes, get_elem?, arith,
}
use dousi.Stream.{AsioStream}
use dousi.Stream.Ids.{write-eq_iff}
use dousi.Stream.Word.{ByteOrder}
use dousi.Submitter.{Submitter, submit, request_object_id}

-- The ids of n calls, one after the other.
pub request_ids : ℕ → Submitter → List ℕ
request_ids zero s = []
request_ids (suc n) s = let (id, s') = request_object_id s in id ∷ request_ids n s'

-- The calls are numbered from the counter on, modulo 2 ^ 64: the i-th of n calls gets the i-th id.
pub get_elem?-request_ids :
    (n i : ℕ) (s : Submitter)
    → i < n
    → s.curr_object_id < 2 ^ 64
    → get_elem? (request_ids n s) i ≡ some ((s.curr_object_id + i) % 2 ^ 64)
unfolding request_ids request_object_id
get_elem?-request_ids zero i s h k = absurd (omega arith)
get_elem?-request_ids (suc n) zero s h k = ap some (omega arith)
get_elem?-request_ids (suc n) (suc i) s h k =
    get_elem?-request_ids n i (request_object_id s).1 (omega arith) (omega arith)
    ∙ ap some (omega arith)

-- Two calls with the same arguments look the same on the wire exactly when their object ids agree
-- modulo 2 ^ 32: the server and the answers cannot tell call 2 ^ 32 + k from call k.
pub submit-eq_iff :
    (o : ByteOrder) (s : Submitter) (t : AsioStream) (i j : ℕ) (name buffer : Bytes)
    → s.stream ≡ some t
    → (submit o s i name buffer ≡ submit o s j name buffer) ↔ (i % 2 ^ 32 ≡ j % 2 ^ 32)
unfolding submit
submit-eq_iff o s t i j name buffer e = rw e (
  λ same. (write-eq_iff o i j buffer).0 (ground arith),
  λ same. ap some ((write-eq_iff o i j buffer).1 same),
)
