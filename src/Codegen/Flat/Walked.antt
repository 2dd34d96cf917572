-- ===== src/Codegen/Flat/Walked.antt =====
-- The set of messages that `collect_rpc_relevant_messages` gives (flatbuffers.rs).
use mathlib.Core.Path.{subst}
use pure_grpc_rs.Base.{
  suc, ◌+◌, true, List, [], ◌∷◌, Option, none, some, ◌≡◌, ◌↔◌, inl, inr, refl, arith, map, length,
  Bool-cases, Option-cases,
}
use pure_grpc_rs.Base.Words.{Bytes, same}
use pure_grpc_rs.Codegen.Flat.{
  RpcTypes, SchemaDef, contains, qualified, qualify_message, find, insert_found, bare,
  collect_methods, collect_services, collect_rpc_io_messages, collect_rpc_relevant_messages, pushes,
}
use pure_grpc_rs.Codegen.Flat.Pushed.{find-IsKnown, IsKnown, references-IsKnown}
use pure_grpc_rs.Codegen.Flat.Used.{
  LeadsFrom, Uses, references-LeadsFrom, LeadsFrom-references, io-Uses,
}
use pure_grpc_rs.Codegen.Flat.Reached.{
  contains-cons, walk_total, walk_sound, walk_complete, budget_all, not_empty, Covers, IsClosed,
}

absurd_none : {q : Bytes} {A : Type 0} → ◌≡◌ {A = Option Bytes} none (some q) → A
absurd_none e = cc

module _ (schema : SchemaDef) where
  -- A message that a method takes or returns, or that a field of a needed message leads to.
  pub data NeededName : Bytes → Type 0 where
    in_rpc : {q : Bytes} → Uses schema schema.services q → NeededName q
    in_field : {qn q : Bytes} → NeededName qn → LeadsFrom schema qn q → NeededName q

  abbrev AreKnown : List Bytes → Type 0
  AreKnown ids = (q : Bytes) → contains ids q ≡ true → IsKnown schema q

  qualify_message-IsKnown : (raw q : Bytes) → qualify_message schema raw ≡ some q → IsKnown schema q
  unfolding qualify_message
  qualify_message-IsKnown raw q e =
      elim (Option-cases (find (λ m. same m.name (bare raw)) schema.messages)) [
        | inl n ↦ absurd_none (rw (n, qualify_message) at e)
        | inr (m, n) ↦
            let s : some (qualified m) ≡ some q = rw (n, qualify_message) at e in
            let t : qualified m ≡ q = cc in
            subst (IsKnown schema) t (find-IsKnown _ schema.messages m n)
      ]

  insert_found-IsKnown :
      (o : Option Bytes) (ids : List Bytes)
      → ((q : Bytes) → o ≡ some q → IsKnown schema q)
      → AreKnown ids
      → AreKnown (insert_found o ids)
  insert_found-IsKnown none ids f k = k
  insert_found-IsKnown (some id) ids f k = elim (Bool-cases (contains ids id)) [
    | inl t ↦ rw t k
    | inr n ↦ rw n (λ q h. elim (contains-cons id q ids h) [
      | inl s ↦ subst (IsKnown schema) s (f id refl)
      | inr l ↦ k q l
    ])
  ]

  collect_methods-AreKnown :
      (methods : List RpcTypes) (out : List Bytes)
      → AreKnown out
      → AreKnown (collect_methods schema methods out)
  unfolding collect_methods
  collect_methods-AreKnown [] out k = k
  collect_methods-AreKnown (m ∷ ms) out k = collect_methods-AreKnown ms _ (
      insert_found-IsKnown _ _ (λ q e. qualify_message-IsKnown m.output_type q e)
        (insert_found-IsKnown _ _ (λ q e. qualify_message-IsKnown m.input_type q e) k))

  collect_services-AreKnown :
      (services : List (List RpcTypes)) (out : List Bytes)
      → AreKnown out
      → AreKnown (collect_services schema services out)
  unfolding collect_services
  collect_services-AreKnown [] out k = k
  collect_services-AreKnown (s ∷ ss) out k =
      collect_services-AreKnown ss _ (collect_methods-AreKnown s out k)

  io-AreKnown : AreKnown (collect_rpc_io_messages schema)
  unfolding collect_rpc_io_messages
  io-AreKnown = collect_services-AreKnown schema.services [] (λ q h. absurd (not_empty q h))

  NeededName-found :
      (r : List Bytes)
      → IsClosed schema [] (collect_rpc_io_messages schema) r
      → {q : Bytes} → NeededName q
      → contains r q ≡ true
  NeededName-found r c (in_rpc h) = c.waiting _ ((io-Uses schema _).1 h)
  NeededName-found r c (in_field {qn} {q} n l) =
      c.leads qn q (NeededName-found r c n) (LeadsFrom-references schema qn q l)

  -- The walk over the messages of a schema ends on every schema, also one whose messages refer to
  -- each other in circles. It gives just the needed messages: those that a method of a service
  -- takes or returns, and those that a field of a needed message leads to, through vectors,
  -- options, maps and unions.
  pub collect_rpc_relevant_messages-NeededName :
      (r : List Bytes) × (collect_rpc_relevant_messages schema ≡ some r)
      × ((q : Bytes) → (contains r q ≡ true) ↔ NeededName q)
  unfolding collect_rpc_relevant_messages Covers
  collect_rpc_relevant_messages-NeededName =
      let us = map qualified schema.messages in
      let io = collect_rpc_io_messages schema in
      let fuel = suc (length io + pushes schema us) in
      let (r, e) =
        walk_total schema us (references-IsKnown schema) fuel [] io io-AreKnown
          (omega (arith, budget_all schema us)) in
      let c = walk_complete schema fuel [] io r (λ a q h k. absurd (not_empty a h)) e in
      (
        r,
        e,
        λ q. (
          walk_sound schema NeededName (λ qn q n h. in_field n (references-LeadsFrom schema qn q h))
              fuel [] io r (λ q h. absurd (not_empty q h)) (λ q h. in_rpc ((io-Uses schema q).0 h))
              e q,
          λ n. NeededName-found r c n,
        ),
      )
