-- ===== src/Testing/Blocks.antt =====
-- The blocks of `main` in src/tests/test_utils/basic_server_for_test.cc: what they leave behind.
use dousi.Prelude.{
  ℕ, ◌≡◌, inl, inr, refl, sym, ap, ◌∙◌, subst, List, [], ◌∷◌, ◌++◌, Option, none, some, Bytes,
  length, get_elem?, set, get_elem?-set_self, get_elem?-set_ne, get_elem?-append_left,
  get_elem?-append_length, ℕ_discrete,
}
use dousi.Prelude.Map.{lookup, Bytes_eq}
use dousi.Msgpack.{Msgpack}
use dousi.Traits.{RemoteMethod}
use dousi.Queue.LockFree.{LockFree}
use dousi.Executor.{Executor, Bound, register_method, create_service, destroy_service}
use dousi.Executor.Dispatch.{register_method_found}
use dousi.Executor.Threads.Answers.{IsEmpty}
use dousi.Rpc.{server_create_service}
use dousi.Testing.Server.{register_all, in_block}

-- A service has been at the address, and it is destroyed.
abbrev pub IsGone : List (Option ℕ) → ℕ → Type 0
IsGone services address = get_elem? services address ≡ some none

IsGone-end :
    (services : List (Option ℕ)) (x : Option ℕ) (j : ℕ)
    → IsGone services j
    → IsGone (set (services ++ x ∷ []) (length services) none) j
IsGone-end services x j gone = elim (ℕ_discrete (length services) j) [
  | yes same ↦ subst (IsGone (set (services ++ x ∷ []) (length services) none)) same (
      get_elem?-set_self (services ++ x ∷ []) (length services) none x
        (get_elem?-append_length services x))
  | no differ ↦
      get_elem?-set_ne (services ++ x ∷ []) (length services) j none differ
      ∙ get_elem?-append_left services (x ∷ []) j none gone
]

module _ {m : Msgpack} {l : LockFree} {S : Type 0} where
  -- Each method that is registered is bound to a service at an address where P holds.
  abbrev pub BoundWhere : (ℕ → Type 0) → Executor m l S → Type 0
  BoundWhere P e =
      (name : Bytes) (b : Bound m S)
      → lookup name e.registered_methods ≡ some (some b)
      → P b.service_instance

  register_method-BoundWhere :
      (P : ℕ → Type 0) (address : ℕ) (rm : RemoteMethod m.Object S) (e : Executor m l S)
      → P address
      → BoundWhere P e
      → BoundWhere P (register_method address rm e)
  register_method-BoundWhere P address rm e here h name b found =
      elim (register_method_found e address rm name b found) [
        | inl it ↦ subst P (sym (ap (λ (b : Bound m S). b.service_instance) it)) here
        | inr old ↦ h name b old
      ]

  register_all-BoundWhere :
      (P : ℕ → Type 0) (address : ℕ) (rms : List (RemoteMethod m.Object S)) (e : Executor m l S)
      → P address
      → BoundWhere P e
      → BoundWhere P (register_all address rms e)
  unfolding register_all
  register_all-BoundWhere P address [] e here h = h
  register_all-BoundWhere P address (rm ∷ rms) e here h =
      register_all-BoundWhere P address rms (register_method address rm e) here
        (register_method-BoundWhere P address rm e here h)

  -- What the registration of methods leaves as it was.
  record SameButMethods (e e' : Executor m l S) : Type 0 where
    services : e'.services ≡ e.services
    requests : e'.request_queue ≡ e.request_queue
    responses : e'.response_queue ≡ e.response_queue

  register_all-SameButMethods :
      (address : ℕ) (rms : List (RemoteMethod m.Object S)) (e : Executor m l S)
      → SameButMethods e (register_all address rms e)
  unfolding register_all register_method
  register_all-SameButMethods address [] e = record {
    services = refl;
    requests = refl;
    responses = refl;
  }
  register_all-SameButMethods address (rm ∷ rms) e =
      let h = register_all-SameButMethods address rms (register_method address rm e) in
      record { services = h.services; requests = h.requests; responses = h.responses }

  -- Nothing is queued, and all methods are bound to services that are gone.
  pub record IsDangling (e : Executor m l S) : Type 0 where
    pub empty : IsEmpty e
    pub bound : BoundWhere (IsGone e.services) e

  -- After a block all methods are dangling that were so before, and those of the block.
  pub in_block-IsDangling :
      (service_name : Bytes) (object : S) (rms : List (RemoteMethod m.Object S))
      (e : Executor m l S)
      → IsDangling e
      → IsDangling (in_block service_name object rms e)
  unfolding in_block create_service server_create_service destroy_service
  in_block-IsDangling service_name object rms e h =
      let a = length e.services in
      let x = some (length e.objects) in
      let made = (create_service service_name object e).1 in
      let same = register_all-SameButMethods a rms made in
      let after = set (e.services ++ x ∷ []) a none in
      let bound : BoundWhere (IsGone after) (register_all a rms made) =
        register_all-BoundWhere (IsGone after) a rms made
          (get_elem?-set_self (e.services ++ x ∷ []) a none x
            (get_elem?-append_length e.services x))
          (λ name b found. IsGone-end e.services x b.service_instance (h.bound name b found)) in
      record {
        empty = record {
          no_requests = ap l.contents same.requests ∙ h.empty.no_requests;
          no_responses = ap l.contents same.responses ∙ h.empty.no_responses;
        };
        bound = λ name b found.
            subst (λ services. IsGone (set services a none) b.service_instance) (sym same.services)
              (bound name b found);
      }
