-- ===== src/Jni/References/Clients.antt =====
-- What the native methods of src/dousi/jni/org_dousi_client_NativeRpcClient.cc do to the clients and to the
-- references.
use dousi.Prelude.{
  zero, suc, ◌⊎◌, inl, inr, false, if◌then◌else◌, ℕ, ◌<◌, ◌≡◌, refl, sym, ap, subst, Bool, true,
  List, [], ◌∷◌, ◌++◌, Option, none, some, Bytes, codes, length, get_elem?, get_elem?-set_self, All,
  >>=-eq-some, some_inj, some_pair, arith,
}
use dousi.Endpoint.Text.{ℤ}
use dousi.Endpoint.{endpoint, resolve_query}
use dousi.Stream.{Invocation}
use dousi.Stream.Word.{ByteOrder}
use dousi.Submitter.{
  Submitter, java, new_submitter, init, do_connect, on_message, deliver, submit, request_object_id,
}
use dousi.Jni.{to_long, invoke}
use dousi.Jni.References.{Vm, Native, deref, load_class, jni_on_load, delete_global_ref}

-- A client that is alive and calls back.
abbrev pub IsJava : Submitter → Type 0
IsJava c = (c.client_language ≡ java) × (c.has_callback ≡ true)

abbrev pub IsAlive : Option Submitter → Type 0
IsAlive held = (c : Submitter) × (held ≡ some c) × IsJava c

if-eq : {A : Type 0} (b : Bool) {x y z : A} → (if b then x else y) ≡ z → (x ≡ z) ⊎ (y ≡ z)
if-eq true h = inl h
if-eq false h = inr h

pub init-IsJava :
    (connects : Bytes × Bytes → Bool) (address : Bytes) (c : Submitter)
    → init connects address (new_submitter java true) ≡ some c
    → IsJava c
unfolding init do_connect
init-IsJava connects address c h =
    let (e, read, connects_) = >>=-eq-some (endpoint address) _ h in
    let (connected, made, started) =
      >>=-eq-some (do_connect connects (resolve_query e) (new_submitter java true)) _ connects_ in
    elim (if-eq (connects (resolve_query e)) made) [
      | inl same ↦ subst IsJava (some_inj started) (subst IsJava (some_inj same) (refl, refl))
      | inr same ↦ cc
    ]

pub on_message-IsJava :
    (c : Submitter) (i : Invocation)
    → IsJava c
    → (c' : Submitter) × (on_message c i ≡ some c') × IsJava c'
unfolding on_message deliver
on_message-IsJava c i h =
    (record c { returned = c.returned ++ ((i.object_id, i.body) ∷ []) }, rw (h.0, h.1) refl, h)

pub invoke-IsJava :
    (o : ByteOrder) (c c' : Submitter) (bytes : Bytes) {id : ℤ} {wire : Bytes}
    → invoke o c bytes ≡ some (id, (wire, c'))
    → IsJava c
    → IsJava c'
unfolding invoke request_object_id submit
invoke-IsJava o c c' bytes h java_ =
    let s' = (request_object_id c).1 in
    let (wire', sent, done) =
      >>=-eq-some (submit o s' c.curr_object_id [] bytes)
        (λ wire. some (to_long c.curr_object_id, (wire, s'))) h in
    subst IsJava {x = s'} (ap (λ (p : Bytes × Submitter). p.1) (some_pair done).1) java_

pub get_elem?-All :
    {A : Type 0} (P : A → Type 0) (xs : List A) (i : ℕ)
    → All P xs
    → i < length xs
    → (x : A) × (get_elem? xs i ≡ some x) × P x
get_elem?-All P [] i h inside = absurd (omega arith)
get_elem?-All P (x ∷ xs) zero h inside = (x, refl, h.0)
get_elem?-All P (x ∷ xs) (suc i) h inside = get_elem?-All P xs i h.1 (omega arith)

pub get_elem?-inside :
    {A : Type 0} (xs : List A) (i : ℕ) {x : A} → get_elem? xs i ≡ some x → i < length xs
get_elem?-inside [] i h = cc
get_elem?-inside (y ∷ xs) zero h = omega arith
get_elem?-inside (y ∷ xs) (suc i) h = omega (arith, get_elem?-inside xs i h)

pub jni_on_load-clients :
    {Array : Type 0} (vm : Vm) (s : Native Array) {v : ℤ} {s' : Native Array}
    → jni_on_load vm s ≡ some (v, s')
    → s'.clients ≡ s.clients
unfolding jni_on_load
jni_on_load-clients vm s h = elim (if-eq vm.get_env h) [
  | inl loaded_ ↦
      let p = load_class vm (codes "org/dousi/client/NativeRpcClient") s.references in
      let (class_, found, same) = >>=-eq-some (deref p.0 p.1) _ loaded_ in
      ap (λ t. t.clients) (sym (some_pair same).1)
  | inr same ↦ ap (λ t. t.clients) (sym (some_pair same).1)
]

pub deref-delete_global_ref :
    (reference : Option ℕ) (references : List (Option ℕ)) {left : List (Option ℕ)}
    → delete_global_ref reference references ≡ some left
    → deref reference left ≡ none
deref-delete_global_ref none references h = refl
deref-delete_global_ref (some r) references h =
    let (object, live, done) = >>=-eq-some (deref (some r) references) _ h in
    let (held, found, same) = >>=-eq-some (get_elem? references r) (λ held. held) live in
    subst (λ left. deref (some r) left ≡ none) (some_inj done)
      (rw (get_elem?-set_self references r none held found) refl)
