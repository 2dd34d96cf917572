-- ===== src/Tests/Codegen.antt =====
-- A method descriptor without a type, and schemas of FlatBuffers, at concrete inputs.
use pure_grpc_rs.Base.{arith, ◌↔◌, List, Bool, true, [], ◌∷◌, none, some, ◌≡◌, refl, err}
use pure_grpc_rs.Base.Text.{ascii}
use pure_grpc_rs.Base.Words.{Bytes, same}
use pure_grpc_rs.Codegen.Flat.{
  MessageDef, SchemaDef, message, optional, scalar, contains, qualified, qualified_name,
  qualify_message, collect_rpc_relevant_messages,
}
use pure_grpc_rs.Codegen.Flat.Lookup.{found_under, found_under_shadowed}
use pure_grpc_rs.Codegen.Flat.First.{IsClear}
use pure_grpc_rs.Codegen.Flat.Needed.{Needed, collect_rpc_relevant_messages-Needed}
use pure_grpc_rs.Codegen.{MethodDescriptorProto, required, method_from_proto}

abbrev streams : Bool → Bool → Bool × Bool
streams client server = (client, server)

abbrev untyped : MethodDescriptorProto
untyped = record {
  name = some (ascii "Rpc");
  input_type = none;
  output_type = some (ascii ".pkg.Out");
  client_streaming = none;
  server_streaming = none;
}

abbrev missing_input : Bytes
missing_input = ascii "method `Rpc` is missing an input_type"

untyped_refused : method_from_proto streams (ascii "super") untyped ≡ err missing_input
unfolding method_from_proto required
untyped_refused = refl

-- A request with a field of an optional type, a message of the same name as that type, and one that
-- nothing names.
abbrev schema : SchemaDef
schema = record {
  messages =
      record {
        name = ascii "Ask";
        namespace = some (ascii "a");
        fields = optional (message (ascii "Item") (some (ascii "a"))) ∷ [];
      }
      ∷ record { name = ascii "Item"; namespace = some (ascii "b"); fields = [] }
      ∷ record { name = ascii "Item"; namespace = some (ascii "a"); fields = scalar ∷ [] }
      ∷ record { name = ascii "Other"; namespace = none; fields = [] }
      ∷ [];
  services = (record { input_type = ascii "Ask"; output_type = ascii "super::Ask" } ∷ []) ∷ [];
}

walked : collect_rpc_relevant_messages schema ≡ some (ascii "a.Item" ∷ ascii "a.Ask" ∷ [])
unfolding collect_rpc_relevant_messages qualify_message qualified_name same
walked = refl

schema-IsClear : IsClear schema.messages
schema-IsClear = ground arith

collect_rpc_relevant_messages-Needed_example :
    (r : List Bytes) × (collect_rpc_relevant_messages schema ≡ some r)
    × ((q : Bytes)
        → (contains r q ≡ true) ↔ ((m : MessageDef) × Needed schema m × (qualified m ≡ q)))
collect_rpc_relevant_messages-Needed_example =
    collect_rpc_relevant_messages-Needed schema schema-IsClear

-- Two messages of one name: the one of the root namespace is not found.
abbrev inner : MessageDef
inner = record { name = ascii "Item"; namespace = some (ascii "a"); fields = [] }

abbrev root : MessageDef
root = record { name = ascii "Item"; namespace = none; fields = scalar ∷ [] }

root_not_found :
    found_under (record { messages = inner ∷ root ∷ []; services = [] }) (qualified root)
    ≡ some inner
root_not_found =
    found_under_shadowed (record { messages = inner ∷ root ∷ []; services = [] }) (inner ∷ []) []
      root refl (omega arith) inner [] refl refl refl
