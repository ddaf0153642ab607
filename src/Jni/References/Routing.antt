-- ===== src/Jni/References/Routing.antt =====
-- Which Java object gets the answers of src/dousi/jni/org_dousi_client_NativeRpcClient.cc.
use dousi.Prelude.{
  All-set, ℕ, ◌<◌, ◌≡◌, ◌≢◌, refl, sym, ap, ◌∙◌, subst, Bool, [], ◌∷◌, ◌++◌, Option, none, some,
  Bytes, length, get_elem?, set, get_elem?-set_ne, get_elem?-append_length, All, All-append,
  >>=-eq-some, some_inj, some_pair,
}
use dousi.Endpoint.Text.{ℤ, pos}
use dousi.Logging.{Spdlog}
use dousi.Stream.{Invocation}
use dousi.Stream.Word.{ByteOrder}
use dousi.Submitter.{Submitter, on_message}
use dousi.Jni.{native_new_rpc_client, native_client_for_java}
use dousi.Jni.Arrays.{
  JniEnv, native_invoke, java_byte_array_to_native_string, on_return_value_received,
}
use dousi.Jni.References.{
  Vm, Native, deref, client_at, unloaded, jni_on_load, native_new, native_invoke_at, on_answer,
  native_destroy, delete_global_ref, delete_method, call_void_method,
}
use dousi.Jni.References.Clients.{
  IsJava, IsAlive, init-IsJava, on_message-IsJava, invoke-IsJava, get_elem?-All, get_elem?-inside,
  jni_on_load-clients, deref-delete_global_ref,
}

module _ (env : JniEnv) (vm : Vm) (spd : Spdlog) (connects : Bytes × Bytes → Bool) (o : ByteOrder)
    (method : ℕ) where
  -- The library after it was loaded, with its method found, and after clients were made and used, none
  -- of them destroyed; the object of the client that was made last.
  pub data Used : Option ℕ → Native env.ByteArray → Type 0 where
    loaded :
        {s : Native env.ByteArray}
        → jni_on_load vm unloaded ≡ some (pos 65544, s)
        → s.java_method ≡ some method
        → Used none s
    made :
        {last : Option ℕ} {s s' : Native env.ByteArray}
        → Used last s
        → (object : ℕ) (server_address : vm.JavaString) (pointer : ℕ)
        → native_new vm spd connects object server_address s ≡ some (pointer, s')
        → Used (some object) s'
    invoked :
        {last : Option ℕ} {s s' : Native env.ByteArray}
        → Used last s
        → (pointer : ℕ) (bytes : env.ByteArray) (id : ℤ) (wire : Bytes)
        → native_invoke_at env o pointer bytes s ≡ some (id, (wire, s'))
        → Used last s'
    answered :
        {last : Option ℕ} {s s' : Native env.ByteArray}
        → Used last s
        → (pointer : ℕ) (i : Invocation) → on_answer env pointer i s ≡ some s'
        → Used last s'

  record IsUsable (last : Option ℕ) (s : Native env.ByteArray) : Type 0 where
    has_method : s.java_method ≡ some method
    has_object : (object : ℕ) → last ≡ some object → deref s.java_object s.references ≡ some object
    alive : All IsAlive s.clients

  native_new-IsUsable :
      (last : Option ℕ) (s s' : Native env.ByteArray) (object : ℕ) (address : vm.JavaString)
      (pointer : ℕ)
      → IsUsable last s
      → native_new vm spd connects object address s ≡ some (pointer, s')
      → IsUsable (some object) s'
  unfolding native_new native_new_rpc_client native_client_for_java
  native_new-IsUsable last s s' object address pointer h made_ =
      let (c, started, done) = >>=-eq-some _ _ made_ in
      let same = (some_pair done).1 in
      subst (IsUsable (some object)) same (record {
        has_method = h.has_method;
        has_object = λ other e. rw (get_elem?-append_length s.references (some object)) e;
        alive =
            All-append IsAlive s.clients (some c ∷ []) h.alive
              ((c, refl, init-IsJava connects _ c started), tt);
      })

  alive-client :
      (s : Native env.ByteArray) (pointer : ℕ) (c : Submitter)
      → All IsAlive s.clients
      → client_at pointer s ≡ some c
      → IsJava c
  alive-client s pointer c h at =
      let (held, found, same) = >>=-eq-some (get_elem? s.clients pointer) (λ held. held) at in
      let (held', found', (c', is, java_)) =
        get_elem?-All IsAlive s.clients pointer h (get_elem?-inside s.clients pointer found) in
      subst IsJava (some_inj (sym is ∙ (some_inj (sym found' ∙ found) ∙ same))) java_

  native_invoke_at-IsUsable :
      (last : Option ℕ) (s s' : Native env.ByteArray) (pointer : ℕ) (bytes : env.ByteArray) (id : ℤ)
      (wire : Bytes)
      → IsUsable last s
      → native_invoke_at env o pointer bytes s ≡ some (id, (wire, s'))
      → IsUsable last s'
  unfolding native_invoke_at native_invoke
  native_invoke_at-IsUsable last s s' pointer bytes id wire h invoked_ =
      let (c, at, went_on) = >>=-eq-some (client_at pointer s) _ invoked_ in
      let ((id', (wire', c')), called, done) =
        >>=-eq-some (native_invoke env o c bytes) _ went_on in
      let (str, converted, sent) =
        >>=-eq-some (java_byte_array_to_native_string env bytes) _ called in
      let kept = invoke-IsJava o c c' str sent (alive-client s pointer c h.alive at) in
      subst (IsUsable last) {x = record s { clients = set s.clients pointer (some c') }}
        (ap (λ (p : Bytes × Native env.ByteArray). p.1) (some_pair done).1)
        (record {
          has_method = h.has_method;
          has_object = h.has_object;
          alive = All-set IsAlive s.clients pointer (some c') h.alive (c', refl, kept);
        })

  on_answer-IsUsable :
      (last : Option ℕ) (s s' : Native env.ByteArray) (pointer : ℕ) (i : Invocation)
      → IsUsable last s
      → on_answer env pointer i s ≡ some s'
      → IsUsable last s'
  unfolding on_answer call_void_method
  on_answer-IsUsable last s s' pointer i h answered_ =
      let (c, at, went_on) = >>=-eq-some (client_at pointer s) _ answered_ in
      let (c', given, called) = >>=-eq-some (on_message c i) _ went_on in
      let (object, found, with_method) = >>=-eq-some (deref s.java_object s.references) _ called in
      let (method_, has_, done) = >>=-eq-some s.java_method _ with_method in
      let (c'', given', java_) = on_message-IsJava c i (alive-client s pointer c h.alive at) in
      let kept = subst IsJava (some_inj (sym given' ∙ given)) java_ in
      subst (IsUsable last) (some_inj done) (record {
        has_method = h.has_method;
        has_object = h.has_object;
        alive = All-set IsAlive s.clients pointer (some c') h.alive (c', refl, kept);
      })

  Used-IsUsable : {last : Option ℕ} {s : Native env.ByteArray} → Used last s → IsUsable last s
  Used-IsUsable (loaded {s} loaded_ found) = record {
    has_method = found;
    has_object = λ object e. cc;
    alive = subst (All IsAlive) (sym (jni_on_load-clients vm unloaded loaded_)) tt;
  }
  Used-IsUsable (made {last} {s} {s'} used object address pointer h) =
      native_new-IsUsable last s s' object address pointer (Used-IsUsable used) h
  Used-IsUsable (invoked {last} {s} {s'} used pointer bytes id wire h) =
      native_invoke_at-IsUsable last s s' pointer bytes id wire (Used-IsUsable used) h
  Used-IsUsable (answered {last} {s} {s'} used pointer i h) =
      on_answer-IsUsable last s s' pointer i (Used-IsUsable used) h

  -- Once the class and its method were found, and as long as no client is destroyed: every answer that
  -- arrives at any of the clients is handed to the Java object whose client was made last, under its id
  -- and in a new array, whichever client had made the call.
  pub on_answer-Used :
      {object : ℕ} {s : Native env.ByteArray} (pointer : ℕ) (i : Invocation)
      → Used (some object) s
      → pointer < length s.clients
      → (s' : Native env.ByteArray) × (on_answer env pointer i s ≡ some s')
        × (s'.received ≡ s.received ++ (object, on_return_value_received env i) ∷ [])
  unfolding on_answer call_void_method
  on_answer-Used {object} {s} pointer i used inside =
      let h = Used-IsUsable used in
      let (held, at, (c, is, java_)) = get_elem?-All IsAlive s.clients pointer h.alive inside in
      let (c', given, java') = on_message-IsJava c i java_ in
      (
        record s {
          clients = set s.clients pointer (some c');
          received = s.received ++ (object, on_return_value_received env i) ∷ [];
        },
        rw (at, is, given, h.has_object object refl, h.has_method) refl,
        refl,
      )

  -- After one client was destroyed, if the deletions did not end the process, each other client is still
  -- alive and calls back, and the next answer that arrives at it is handed to a reference that is
  -- deleted.
  pub native_destroy-on_answer :
      {object : ℕ} {s s' : Native env.ByteArray} (pointer other : ℕ) (i : Invocation)
      → Used (some object) s
      → native_destroy vm pointer s ≡ some s'
      → other < length s.clients
      → other ≢ pointer
      → ((c : Submitter) × (client_at other s' ≡ some c) × IsJava c)
        × (on_answer env other i s' ≡ none)
  unfolding native_destroy on_answer call_void_method
  native_destroy-on_answer {object} {s} {s'} pointer other i used destroyed inside apart =
      let h = Used-IsUsable used in
      let (c, at, went_on) = >>=-eq-some (client_at pointer s) _ destroyed in
      let (no_class, first, went_on') =
        >>=-eq-some (delete_global_ref s.java_class s.references) _ went_on in
      let (no_method, second, went_on'') =
        >>=-eq-some (delete_method vm s.java_method no_class) _ went_on' in
      let (no_object, third, done) =
        >>=-eq-some (delete_global_ref s.java_object no_method) _ went_on'' in
      let gone = deref-delete_global_ref s.java_object no_method third in
      let (held, at', (c', is, java_)) = get_elem?-All IsAlive s.clients other h.alive inside in
      let still = get_elem?-set_ne s.clients pointer other none (λ e. apart (sym e)) ∙ at' in
      let (c'', given, java') = on_message-IsJava c' i java_ in
      subst
        (λ s'.
          ((c : Submitter) × (client_at other s' ≡ some c) × IsJava c)
          × (on_answer env other i s' ≡ none))
        (some_inj done) ((c', rw (still, is) refl, java_), rw (still, is, given, gone) refl)
