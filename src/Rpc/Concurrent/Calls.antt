-- ===== src/Rpc/Concurrent/Calls.antt =====
-- A call that was performed at some moment, of src/dousi/core/executor/executor.cc.
use dousi.Prelude.{
  ℕ, ◌≡◌, ◌⊎◌, inl, inr, refl, sym, ap, ◌∙◌, List, Option, none, some, Bytes, get_elem?, set,
}
use dousi.Prelude.Map.{ℕ_eq, Bytes_eq}
use dousi.Msgpack.{Tuple, Msgpack}
use dousi.Traits.{RemoteMethod, serialize_result}
use dousi.Traits.Laws.{request_object, invoke-request_object}
use dousi.Queue.LockFree.{LockFree}
use dousi.Executor.{Executor, ok, fault, dangling_service, call_method, call_bound}
use dousi.Executor.Dispatch.{IsRegistered}
use dousi.Executor.Threads.Serial.{ok_inj}

Option-cases : {A : Type 0} (x : Option A) → (x ≡ none) ⊎ ((a : A) × (x ≡ some a))
Option-cases none = inl refl
Option-cases (some a) = inr (a, refl)

module _ {m : Msgpack} {l : LockFree} {S : Type 0} where
  -- A request for a registered method that was performed without a fault found an object, and its
  -- result is that of the method.
  pub called_method :
      (e : Executor m l S) (address index : ℕ) (rm : RemoteMethod m.Object S) (objects : List S)
      (service_name : Bytes) (args : Tuple rm.traits.args) (c : Bytes × Executor m l S)
      → IsRegistered e address rm
      → get_elem? e.services address ≡ some (some index)
      → call_method
          (record e { objects = objects })
          rm.method_name
          (request_object m service_name rm.method_name rm.traits.args args)
        ≡ ok c
      → (object : S) × (get_elem? objects index ≡ some object)
        × (c.0 ≡ serialize_result m rm.traits.return_type (rm.method args object).0)
  unfolding call_method call_bound
  called_method e address index rm objects service_name args c registered live called =
      let now = record e { objects = objects } in
      let unpacked = request_object m service_name rm.method_name rm.traits.args args in
      elim (Option-cases (get_elem? objects index)) [
        | inl missing ↦
            let faulted : call_method now rm.method_name unpacked ≡ fault dangling_service =
              rw (registered, call_method, live, call_bound, missing) refl in
            cc
        | inr (object, held) ↦
            let done : call_method now rm.method_name unpacked
                ≡ ok (
                  serialize_result m rm.traits.return_type (rm.method args object).0,
                  record now { objects = set objects index (rm.method args object).1 },
                ) =
              rw
                (
                  registered,
                  call_method,
                  live,
                  call_bound,
                  held,
                  invoke-request_object m rm service_name rm.method_name args object,
                )
                refl in
            (object, held, ap (λ (c : Bytes × Executor m l S). c.0) (ok_inj (sym called ∙ done)))
      ]
