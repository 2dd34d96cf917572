-- ===== src/Codegen/Flat/Needed.antt =====
-- Which messages the calls of a schema need, said of the messages themselves (flatbuffers.rs).
use mathlib.Core.Path.{subst}
use pure_grpc_rs.Base.{
  Bool, true, List, [], ◌∷◌, ◌++◌, Option, none, some, ◌≡◌, ◌≢◌, ◌↔◌, ◌⊎◌, inl, inr, refl, sym, ap,
  ◌∙◌, All, Option-cases,
}
use pure_grpc_rs.Base.Words.{Bytes, same, same_iff}
use pure_grpc_rs.Codegen.Flat.{
  FieldType, RpcTypes, MessageDef, SchemaDef, contains, qualified, qualified_name, qualify_message,
  find, find_message, bare, split_qualified, collect_rpc_relevant_messages,
}
use pure_grpc_rs.Codegen.Flat.Lookup.{
  found_under, split_qualified_of_name, split_qualified-qualified_name,
}
use pure_grpc_rs.Codegen.Flat.Mentions.{Among, Mentions}
use pure_grpc_rs.Codegen.Flat.Walked.{
  NeededName, in_rpc as name_in_rpc, in_field as name_in_field,
  collect_rpc_relevant_messages-NeededName,
}
use pure_grpc_rs.Codegen.Flat.First.{
  IsIn, Fits, IsFirst, Fits-iff, find-IsFirst, IsFirst-find, Shadows, IsClear, unshadowed,
}

module _ (schema : SchemaDef) where
  -- A message that a method takes or returns, or that a field of a needed message refers to.
  pub data Needed : MessageDef → Type 0 where
    in_rpc :
        {m : MessageDef} (service : List RpcTypes) (method : RpcTypes) (raw : Bytes)
        → Among service schema.services
        → Among method service
        → (method.input_type ≡ raw) ⊎ (method.output_type ≡ raw)
        → IsFirst (λ k. k.name ≡ bare raw) schema.messages m
        → Needed m
    in_field :
        {m : MessageDef} (k : MessageDef) (field : FieldType) (name : Bytes)
        (package_name : Option Bytes)
        → Needed k
        → Among field k.fields
        → Mentions name package_name field
        → IsFirst (Fits package_name name) schema.messages m
        → Needed m

  find_message_iff :
      (p : Option Bytes) (name : Bytes) (m : MessageDef)
      → (find_message schema p name ≡ some m) ↔ IsFirst (Fits p name) schema.messages m
  unfolding find_message
  find_message_iff p name m = (
    IsFirst-find (Fits p name) _ (Fits-iff p name) schema.messages m,
    find-IsFirst (Fits p name) _ (Fits-iff p name) schema.messages m,
  )

  qualify_message_iff :
      (raw q : Bytes)
      → (qualify_message schema raw ≡ some q) ↔ (
          (m : MessageDef) × IsFirst (λ k. k.name ≡ bare raw) schema.messages m × (qualified m ≡ q))
  unfolding qualify_message
  qualify_message_iff raw q =
      let test : MessageDef → Bool = λ k. same k.name (bare raw) in
      let decides : (k : MessageDef) → (test k ≡ true) ↔ (k.name ≡ bare raw) =
        λ k. same_iff k.name (bare raw) in
      (
        λ e. elim (Option-cases (find test schema.messages)) [
          | inl n ↦ absurd (cc (rw (n, qualify_message) at e))
          | inr (m, n) ↦
              let s : some (qualified m) ≡ some q = rw (n, qualify_message) at e in
              (m, IsFirst-find (λ k. k.name ≡ bare raw) test decides schema.messages m n, cc s)
        ],
        λ (m, f, s).
            rw
              (
                find-IsFirst (λ k. k.name ≡ bare raw) test decides schema.messages m f,
                qualify_message,
              )
              (ap some s),
      )

  module _ (clear : IsClear schema.messages) where
    clear_at :
        (before after : List MessageDef) (m : MessageDef)
        → schema.messages ≡ before ++ (m ∷ after)
        → All (λ b. b ≢ b'.') m.name × All (λ k. ¬ Shadows k m) before
    clear_at before after m e = unshadowed before after m (subst IsClear e clear)

    own_name :
        (before after : List MessageDef) (m : MessageDef) (o : Option Bytes)
        → schema.messages ≡ before ++ (m ∷ after)
        → m.namespace ≡ o
        → IsIn o m
        → IsFirst (Fits o m.name) schema.messages m
    own_name before after m o e n i = record {
      before = before;
      after = after;
      listed = e;
      earlier =
          subst (λ v. All (λ k. ¬ ((k.name ≡ m.name) × IsIn v k)) before) n
            (clear_at before after m e).1;
      holds = (refl, i);
    }

    -- The walk finds a listed message under its own name.
    found_under-clear :
        (before after : List MessageDef) (m : MessageDef) (o : Option Bytes)
        → schema.messages ≡ before ++ (m ∷ after)
        → m.namespace ≡ o
        → found_under schema (qualified m) ≡ some m
    unfolding qualified_name
    found_under-clear before after m none e n =
        ap (λ p. find_message schema p.0 p.1)
          (ap (λ o. split_qualified (qualified_name o m.name)) n
            ∙ split_qualified_of_name m.name (clear_at before after m e).0)
        ∙ (find_message_iff none m.name m).1 (own_name before after m none e n tt)
    found_under-clear before after m (some []) e n =
        ap (λ p. find_message schema p.0 p.1)
          (ap (λ o. split_qualified (qualified_name o m.name)) n
            ∙ split_qualified_of_name m.name (clear_at before after m e).0)
        ∙ (find_message_iff none m.name m).1 (own_name before after m (some []) e n tt)
    found_under-clear before after m (some (b ∷ ns)) e n =
        ap (λ p. find_message schema p.0 p.1)
          (ap (λ o. split_qualified (qualified_name o m.name)) n
            ∙ split_qualified-qualified_name b ns m.name (clear_at before after m e).0)
        ∙ (find_message_iff (some (b ∷ ns)) m.name m).1
            (own_name before after m (some (b ∷ ns)) e n n)

    found_under-IsFirst :
        {P : MessageDef → Type 0} (m : MessageDef)
        → IsFirst P schema.messages m
        → found_under schema (qualified m) ≡ some m
    found_under-IsFirst m f = found_under-clear f.before f.after m m.namespace f.listed refl

    found_under-Needed : {m : MessageDef} → Needed m → found_under schema (qualified m) ≡ some m
    found_under-Needed {m} (in_rpc service method raw a b u f) = found_under-IsFirst m f
    found_under-Needed {m} (in_field k field name p n a me f) = found_under-IsFirst m f

    Needed-NeededName : {m : MessageDef} → Needed m → NeededName schema (qualified m)
    Needed-NeededName {m} (in_rpc service method raw a b u f) =
        let q = (qualify_message_iff raw (qualified m)).1 (m, f, refl) in
        name_in_rpc (record {
          service = service;
          in_services = a;
          method = method;
          in_methods = b;
          is_q = elim u [
            | inl e ↦ inl (ap (qualify_message schema) e ∙ q)
            | inr e ↦ inr (ap (qualify_message schema) e ∙ q)
          ];
        })
    Needed-NeededName {m} (in_field k field name p n a me f) =
        name_in_field (Needed-NeededName n) (record {
          msg = k;
          by_name = found_under-Needed n;
          field = field;
          in_fields = a;
          leads = record {
            name = name;
            package_name = p;
            mentions = me;
            names = record { found = m; by_name = (find_message_iff p name m).1 f; is_q = refl };
          };
        })

    NeededName-Needed :
        {q : Bytes} → NeededName schema q → (m : MessageDef) × Needed m × (qualified m ≡ q)
    NeededName-Needed {q} (name_in_rpc u) = elim u.is_q [
      | inl e ↦
          let (m, f, s) = (qualify_message_iff u.method.input_type q).0 e in
          (m, in_rpc u.service u.method _ u.in_services u.in_methods (inl refl) f, s)
      | inr e ↦
          let (m, f, s) = (qualify_message_iff u.method.output_type q).0 e in
          (m, in_rpc u.service u.method _ u.in_services u.in_methods (inr refl) f, s)
    ]
    NeededName-Needed (name_in_field {qn} {q} n l) =
        let (k, nk, s) = NeededName-Needed n in
        let e : some l.msg ≡ some k =
          sym l.by_name ∙ ap (found_under schema) (sym s) ∙ found_under-Needed nk in
        let same_message : l.msg ≡ k = cc e in
        let names = l.leads.names in
        (
          names.found,
          in_field k l.field l.leads.name l.leads.package_name nk
              (subst (λ v. Among l.field v.fields) same_message l.in_fields) l.leads.mentions
              ((find_message_iff l.leads.package_name l.leads.name names.found).0 names.by_name),
          names.is_q,
        )

    -- In a schema in which no name has a dot, and no message shadows a later one, that is, has the
    -- same name and is in the same namespace, or in any where the later one is of the root
    -- namespace, the walk over the messages ends, also where they refer to each other in circles.
    -- It gives just the qualified names of the needed messages: for each type that a method of a
    -- service takes or returns, the first message of that name, and for each name in a field of a
    -- needed message, also inside of vectors, options, maps and unions, the first message of that
    -- name and, if one is given, of that namespace.
    pub collect_rpc_relevant_messages-Needed :
        (r : List Bytes) × (collect_rpc_relevant_messages schema ≡ some r)
        × ((q : Bytes) → (contains r q ≡ true) ↔ ((m : MessageDef) × Needed m × (qualified m ≡ q)))
    collect_rpc_relevant_messages-Needed =
        let (r, e, names) = collect_rpc_relevant_messages-NeededName schema in
        (
          r,
          e,
          λ q. (
            λ h. NeededName-Needed ((names q).0 h),
            λ (m, n, s). (names q).1 (subst (NeededName schema) s (Needed-NeededName n)),
          ),
        )
