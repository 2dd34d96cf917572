-- ===== src/Codegen/Flat/Used.antt =====
-- The messages that the calls of a schema use, and those that a message leads to (flatbuffers.rs).
use mathlib.Core.Path.{subst}
use pure_grpc_rs.Base.{
  true, List, [], ◌∷◌, Option, none, some, ◌≡◌, ◌↔◌, ◌⊎◌, inl, inr, refl, sym, ap, ◌∙◌, Bool-cases,
  Option-cases,
}
use pure_grpc_rs.Base.Words.{Bytes}
use pure_grpc_rs.Codegen.Flat.{
  FieldType, RpcTypes, MessageDef, SchemaDef, contains, qualify_message, find_message, insert_found,
  collect_referenced_messages, collect_fields, collect_methods, collect_services,
  collect_rpc_io_messages, expand, split_qualified,
}
use pure_grpc_rs.Codegen.Flat.Pushed.{fields-append, references}
use pure_grpc_rs.Codegen.Flat.Reached.{contains-cons, contains_later, contains_head, not_empty}
use pure_grpc_rs.Codegen.Flat.Mentions.{
  Among, LeadsTo, contains-LeadsTo, Mentions-contains, contains_split, contains_joined,
}

module _ (schema : SchemaDef) where
  -- A message whose name, as `find_message` reads it, has a field that leads to another message.
  pub record LeadsFrom (qn q : Bytes) : Type 0 where
    pub msg : MessageDef
    pub by_name : find_message schema (split_qualified qn).0 (split_qualified qn).1 ≡ some msg
    pub field : FieldType
    pub in_fields : Among field msg.fields
    pub leads : LeadsTo schema field q

  record SomeField (tys : List FieldType) (q : Bytes) : Type 0 where
    field : FieldType
    in_fields : Among field tys
    leads : LeadsTo schema field q

  fields_split :
      (ty : FieldType) (tys : List FieldType) (q : Bytes)
      → contains (collect_fields schema (ty ∷ tys) []) q ≡ true
      → (contains (collect_fields schema tys []) q ≡ true)
        ⊎ (contains (collect_referenced_messages schema ty []) q ≡ true)
  unfolding collect_fields
  fields_split ty tys q h = contains_split schema _ _ q (
      ap (λ v. contains v q)
        (sym (fields-append schema tys (collect_referenced_messages schema ty [])))
      ∙ h)

  fields_joined :
      (ty : FieldType) (tys : List FieldType) (q : Bytes)
      → (contains (collect_fields schema tys []) q ≡ true)
        ⊎ (contains (collect_referenced_messages schema ty []) q ≡ true)
      → contains (collect_fields schema (ty ∷ tys) []) q ≡ true
  unfolding collect_fields
  fields_joined ty tys q h =
      ap (λ v. contains v q) (fields-append schema tys (collect_referenced_messages schema ty []))
      ∙ contains_joined schema _ _ q h

  contains-SomeField :
      (tys : List FieldType) (q : Bytes)
      → contains (collect_fields schema tys []) q ≡ true
      → SomeField tys q
  unfolding collect_fields
  contains-SomeField [] q h = absurd (not_empty q h)
  contains-SomeField (ty ∷ tys) q h = elim (fields_split ty tys q h) [
    | inl t ↦
        let f = contains-SomeField tys q t in
        record { field = f.field; in_fields = inr f.in_fields; leads = f.leads }
    | inr t ↦ record { field = ty; in_fields = inl refl; leads = contains-LeadsTo schema ty q t }
  ]

  LeadsTo-contains :
      (ty : FieldType) (q : Bytes)
      → LeadsTo schema ty q
      → contains (collect_referenced_messages schema ty []) q ≡ true
  LeadsTo-contains ty q l = Mentions-contains schema q l.names l.mentions

  Among-contains :
      (tys : List FieldType) (ty : FieldType) (q : Bytes)
      → Among ty tys
      → LeadsTo schema ty q
      → contains (collect_fields schema tys []) q ≡ true
  Among-contains [] ty q a l = absurd a
  Among-contains (t ∷ tys) ty q (inl e) l =
      fields_joined t tys q (inr (LeadsTo-contains t q (subst (λ z. LeadsTo schema z q) (sym e) l)))
  Among-contains (t ∷ tys) ty q (inr a) l =
      fields_joined t tys q (inl (Among-contains tys ty q a l))

  pub references-LeadsFrom :
      (qn q : Bytes) → contains (references schema qn) q ≡ true → LeadsFrom qn q
  unfolding expand
  references-LeadsFrom qn q h =
      elim (Option-cases (find_message schema (split_qualified qn).0 (split_qualified qn).1)) [
        | inl n ↦ absurd (not_empty q (rw (n, expand) at h))
        | inr (m, n) ↦
            let f = contains-SomeField m.fields q (rw (n, expand) at h) in
            record {
              msg = m;
              by_name = n;
              field = f.field;
              in_fields = f.in_fields;
              leads = f.leads;
            }
      ]

  pub LeadsFrom-references :
      (qn q : Bytes) → LeadsFrom qn q → contains (references schema qn) q ≡ true
  unfolding expand
  LeadsFrom-references qn q l =
      rw (l.by_name, expand) (Among-contains l.msg.fields l.field q l.in_fields l.leads)

  -- A method of a service that takes or returns a message.
  pub record Uses (services : List (List RpcTypes)) (q : Bytes) : Type 0 where
    pub service : List RpcTypes
    pub in_services : Among service services
    pub method : RpcTypes
    pub in_methods : Among method service
    pub is_q :
        (qualify_message schema method.input_type ≡ some q)
        ⊎ (qualify_message schema method.output_type ≡ some q)

  insert_found_split :
      (o : Option Bytes) (ids : List Bytes) (q : Bytes)
      → contains (insert_found o ids) q ≡ true
      → (o ≡ some q) ⊎ (contains ids q ≡ true)
  insert_found_split none ids q h = inr h
  insert_found_split (some id) ids q h = elim (Bool-cases (contains ids id)) [
    | inl t ↦ inr (rw t at h)
    | inr f ↦ elim (contains-cons id q ids (rw f at h)) [ inl e ↦ inl (ap some e) | inr l ↦ inr l ]
  ]

  insert_found_kept :
      (o : Option Bytes) (ids : List Bytes) (q : Bytes)
      → contains ids q ≡ true
      → contains (insert_found o ids) q ≡ true
  insert_found_kept none ids q h = h
  insert_found_kept (some id) ids q h = elim (Bool-cases (contains ids id)) [
    | inl t ↦ rw t h
    | inr f ↦ rw f (contains_later id q ids h)
  ]

  insert_found_new :
      (o : Option Bytes) (ids : List Bytes) (q : Bytes)
      → o ≡ some q
      → contains (insert_found o ids) q ≡ true
  insert_found_new none ids q e = cc
  insert_found_new (some id) ids q e =
      let s : id ≡ q = cc in
      subst (λ z. contains (insert_found (some id) ids) z ≡ true) s
        (elim (Bool-cases (contains ids id)) [
          | inl t ↦ rw t t
          | inr f ↦ rw f (contains_head id ids)
        ])

  record UsesMethod (service : List RpcTypes) (q : Bytes) : Type 0 where
    method : RpcTypes
    in_methods : Among method service
    is_q :
        (qualify_message schema method.input_type ≡ some q)
        ⊎ (qualify_message schema method.output_type ≡ some q)

  abbrev insert_both : RpcTypes → List Bytes → List Bytes
  insert_both m out =
      insert_found (qualify_message schema m.output_type)
        (insert_found (qualify_message schema m.input_type) out)

  methods_found :
      (ms : List RpcTypes) (out : List Bytes) (q : Bytes)
      → contains (collect_methods schema ms out) q ≡ true
      → UsesMethod ms q ⊎ (contains out q ≡ true)
  unfolding collect_methods
  methods_found [] out q h = inr h
  methods_found (m ∷ ms) out q h = elim (methods_found ms (insert_both m out) q h) [
    | inl u ↦ inl (record { method = u.method; in_methods = inr u.in_methods; is_q = u.is_q })
    | inr t ↦ elim (insert_found_split (qualify_message schema m.output_type) _ q t) [
      | inl e ↦ inl (record { method = m; in_methods = inl refl; is_q = inr e })
      | inr i ↦ elim (insert_found_split (qualify_message schema m.input_type) out q i) [
        | inl e ↦ inl (record { method = m; in_methods = inl refl; is_q = inl e })
        | inr o ↦ inr o
      ]
    ]
  ]

  methods_kept :
      (ms : List RpcTypes) (out : List Bytes) (q : Bytes)
      → contains out q ≡ true
      → contains (collect_methods schema ms out) q ≡ true
  unfolding collect_methods
  methods_kept [] out q h = h
  methods_kept (m ∷ ms) out q h =
      methods_kept ms _ q (insert_found_kept _ _ q (insert_found_kept _ out q h))

  methods_new :
      (ms : List RpcTypes) (out : List Bytes) (q : Bytes) (m : RpcTypes)
      → Among m ms
      → (qualify_message schema m.input_type ≡ some q)
        ⊎ (qualify_message schema m.output_type ≡ some q)
      → contains (collect_methods schema ms out) q ≡ true
  unfolding collect_methods
  methods_new [] out q m a u = absurd a
  methods_new (k ∷ ms) out q m (inr a) u = methods_new ms (insert_both k out) q m a u
  methods_new (k ∷ ms) out q m (inl e) (inl i) = methods_kept ms _ q (
      insert_found_kept _ _ q
        (insert_found_new _ out q (ap (λ v. qualify_message schema v.input_type) e ∙ i)))
  methods_new (k ∷ ms) out q m (inl e) (inr o) =
      methods_kept ms _ q
        (insert_found_new _ _ q (ap (λ v. qualify_message schema v.output_type) e ∙ o))

  services_found :
      (ss : List (List RpcTypes)) (out : List Bytes) (q : Bytes)
      → contains (collect_services schema ss out) q ≡ true
      → Uses ss q ⊎ (contains out q ≡ true)
  unfolding collect_services
  services_found [] out q h = inr h
  services_found (s ∷ ss) out q h = elim (services_found ss (collect_methods schema s out) q h) [
    | inl u ↦ inl (record {
      service = u.service;
      in_services = inr u.in_services;
      method = u.method;
      in_methods = u.in_methods;
      is_q = u.is_q;
    })
    | inr t ↦ elim (methods_found s out q t) [
      | inl u ↦ inl (record {
        service = s;
        in_services = inl refl;
        method = u.method;
        in_methods = u.in_methods;
        is_q = u.is_q;
      })
      | inr o ↦ inr o
    ]
  ]

  services_kept :
      (ss : List (List RpcTypes)) (out : List Bytes) (q : Bytes)
      → contains out q ≡ true
      → contains (collect_services schema ss out) q ≡ true
  unfolding collect_services
  services_kept [] out q h = h
  services_kept (s ∷ ss) out q h = services_kept ss _ q (methods_kept s out q h)

  services_new :
      (ss : List (List RpcTypes)) (out : List Bytes) (q : Bytes) (service : List RpcTypes)
      (m : RpcTypes)
      → Among service ss
      → Among m service
      → (qualify_message schema m.input_type ≡ some q)
        ⊎ (qualify_message schema m.output_type ≡ some q)
      → contains (collect_services schema ss out) q ≡ true
  unfolding collect_services
  services_new [] out q service m a b u = absurd a
  services_new (s ∷ ss) out q service m (inr a) b u =
      services_new ss (collect_methods schema s out) q service m a b u
  services_new (s ∷ ss) out q service m (inl e) b u =
      services_kept ss _ q (methods_new s out q m (subst (λ v. Among m v) (sym e) b) u)

  -- The first messages are those that the methods of the services take and return.
  pub io-Uses :
      (q : Bytes) → (contains (collect_rpc_io_messages schema) q ≡ true) ↔ Uses schema.services q
  unfolding collect_rpc_io_messages
  io-Uses q = (
    λ h. elim (services_found schema.services [] q h) [
      | inl u ↦ u
      | inr n ↦ absurd (not_empty q n)
    ],
    λ u. services_new schema.services [] q u.service u.method u.in_services u.in_methods u.is_q,
  )
