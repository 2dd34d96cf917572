-- ===== src/Codegen/Flat.antt =====
-- grpc-codegen/src/flatbuffers.rs: which messages of a schema the calls of its services need, and
-- the definitions that the generators read. The types are those of the crate codegen-schema, as far
-- as they are read; a `BTreeSet` is a list of its elements, in no order that matters.
pub mod Pushed
pub mod Reached
pub mod Mentions
pub mod Used
pub mod Lookup
pub mod Walked
pub mod First
pub mod Needed
use pure_grpc_rs.Base.{
  ℕ, zero, suc, ◌+◌, Bool, true, false, ◌&&◌, ◌||◌, List, [], ◌∷◌, ◌++◌, Option, none, some,
  if◌then◌else◌, ◌==◌, map, length, Result, ok, err, ◌>>=◌,
}
use pure_grpc_rs.Base.Text.{ascii}
use pure_grpc_rs.Base.Words.{Bytes, same}

mutual
  -- `codegen_schema::Type`
  pub data FieldType : Type 0 where
    scalar enum foreign_key : FieldType
    message : Bytes → Option Bytes → FieldType
    vector optional : FieldType → FieldType
    map_of : FieldType → FieldType → FieldType
    one_of : Variants → FieldType

  pub data Variants : Type 0 where
    no_variants : Variants
    variant : FieldType → Variants → Variants

pub record MessageDef : Type 0 where
  pub name : Bytes
  pub namespace : Option Bytes
  pub fields : List FieldType

pub record RpcTypes : Type 0 where
  pub input_type : Bytes
  pub output_type : Bytes

pub record SchemaDef : Type 0 where
  pub messages : List MessageDef
  pub services : List (List RpcTypes)

unfoldable pub contains : List Bytes → Bytes → Bool
contains [] id = false
contains (j ∷ ids) id = same j id || contains ids id

-- `BTreeSet::insert`
abbrev pub insert : Bytes → List Bytes → List Bytes
insert id ids = if contains ids id then ids else id ∷ ids

unfoldable pub qualified_name : Option Bytes → Bytes → Bytes
qualified_name none name = name
qualified_name (some []) name = name
qualified_name (some (b ∷ namespace)) name = (b ∷ namespace) ++ (b'.' ∷ name)

abbrev pub qualified : MessageDef → Bytes
qualified m = qualified_name m.namespace m.name

-- The two sides of the last dot: what is in front of it, if there is one.
unfoldable pub split_qualified : Bytes → Option Bytes × Bytes
split_qualified [] = (none, [])
split_qualified (b ∷ id) =
    let (front, name) = split_qualified id in
    elim front [
      | some namespace ↦ (some (b ∷ namespace), name)
      | none ↦ if b == b'.' then (some [], name) else (none, b ∷ name)
    ]

abbrev pub in_namespace : Option Bytes → Option Bytes → Bool
in_namespace none have = true
in_namespace (some []) have = true
in_namespace (some (b ∷ req)) (some have) = same (b ∷ req) have
in_namespace (some (b ∷ req)) none = false

-- `Iterator::find` over the messages.
unfoldable pub find : (MessageDef → Bool) → List MessageDef → Option MessageDef
find test [] = none
find test (m ∷ messages) = let rest = find test messages in if test m then some m else rest

unfoldable pub find_message : SchemaDef → Option Bytes → Bytes → Option MessageDef
unfolding find
find_message schema namespace name =
    find (λ m. same m.name name && in_namespace namespace m.namespace) schema.messages

-- Whether `::` stands at the front of a text.
abbrev pub cut_colons : Bytes → Option Bytes
cut_colons (a ∷ b ∷ text) = if (a == b':') && (b == b':') then some text else none
cut_colons _ = none

-- The first piece of `rsplit("::")`: the text behind the last `::`.
unfoldable pub last_piece : Bytes → Option Bytes
last_piece [] = none
last_piece (b ∷ text) = elim (last_piece text) [
  | some piece ↦ some piece
  | none ↦ cut_colons (b ∷ text)
]

abbrev pub bare : Bytes → Bytes
bare raw = elim (last_piece raw) [ some piece ↦ piece | none ↦ raw ]

unfoldable pub qualify_message : SchemaDef → Bytes → Option Bytes
unfolding find last_piece
qualify_message schema raw = elim (find (λ m. same m.name (bare raw)) schema.messages) [
  | some m ↦ some (qualified m)
  | none ↦ none
]

abbrev pub insert_found : Option Bytes → List Bytes → List Bytes
insert_found none ids = ids
insert_found (some id) ids = insert id ids

unfoldable pub collect_methods : SchemaDef → List RpcTypes → List Bytes → List Bytes
collect_methods schema [] out = out
collect_methods schema (method ∷ methods) out = collect_methods schema methods (
    insert_found (qualify_message schema method.output_type)
      (insert_found (qualify_message schema method.input_type) out))

unfoldable pub collect_services : SchemaDef → List (List RpcTypes) → List Bytes → List Bytes
unfolding collect_methods
collect_services schema [] out = out
collect_services schema (svc ∷ services) out =
    collect_services schema services (collect_methods schema svc out)

unfoldable pub collect_rpc_io_messages : SchemaDef → List Bytes
unfolding collect_services
collect_rpc_io_messages schema = collect_services schema schema.services []

-- The frontier is a stack: `push` and `pop` are at the head.
abbrev pub push_found : Option MessageDef → List Bytes → List Bytes
push_found none frontier = frontier
push_found (some m) frontier = qualified m ∷ frontier

unfoldable mutual
  pub collect_referenced_messages : SchemaDef → FieldType → List Bytes → List Bytes
  collect_referenced_messages schema (message name package_name) frontier =
      push_found (find_message schema package_name name) frontier
  collect_referenced_messages schema (vector inner) frontier =
      collect_referenced_messages schema inner frontier
  collect_referenced_messages schema (optional inner) frontier =
      collect_referenced_messages schema inner frontier
  collect_referenced_messages schema (map_of key value) frontier =
      collect_referenced_messages schema value (collect_referenced_messages schema key frontier)
  collect_referenced_messages schema (one_of variants) frontier =
      collect_variants schema variants frontier
  collect_referenced_messages schema _ frontier = frontier

  pub collect_variants : SchemaDef → Variants → List Bytes → List Bytes
  collect_variants schema no_variants frontier = frontier
  collect_variants schema (variant ty variants) frontier =
      collect_variants schema variants (collect_referenced_messages schema ty frontier)

unfoldable pub collect_fields : SchemaDef → List FieldType → List Bytes → List Bytes
unfolding collect_referenced_messages
collect_fields schema [] frontier = frontier
collect_fields schema (ty ∷ fields) frontier =
    collect_fields schema fields (collect_referenced_messages schema ty frontier)

-- What a message that is new pushes.
unfoldable pub expand : SchemaDef → Bytes → List Bytes → List Bytes
unfolding split_qualified find_message collect_fields
expand schema qn frontier =
    let (ns, name) = split_qualified qn in
    elim (find_message schema ns name) [
      | none ↦ frontier
      | some msg ↦ collect_fields schema msg.fields frontier
    ]

-- The `while` loop, on fuel.
unfoldable pub walk : SchemaDef → ℕ → List Bytes → List Bytes → Option (List Bytes)
unfolding contains expand
walk schema zero out frontier = none
walk schema (suc fuel) out [] = some out
walk schema (suc fuel) out (qn ∷ frontier) = elim (contains out qn) [
  | true ↦ walk schema fuel out frontier
  | false ↦ walk schema fuel (qn ∷ out) (expand schema qn frontier)
]

-- What the messages of some names push together.
unfoldable pub pushes : SchemaDef → List Bytes → ℕ
pushes schema [] = 0
pushes schema (qn ∷ names) = length (expand schema qn []) + pushes schema names

unfoldable pub collect_rpc_relevant_messages : SchemaDef → Option (List Bytes)
unfolding walk collect_rpc_io_messages pushes
collect_rpc_relevant_messages schema =
    let frontier = collect_rpc_io_messages schema in
    walk schema (suc (length frontier + pushes schema (map qualified schema.messages))) [] frontier
