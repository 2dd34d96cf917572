-- ===== src/Reflection/Indexed.antt =====
-- Which symbols a reflection server finds (grpc-reflection/src/lib.rs).
use pure_grpc_rs.Base.{
  List, [], ◌∷◌, ◌++◌, Option, none, some, ◌≡◌, refl, sym, ap, ◌∙◌, arith, inl, inr, Result, ok,
  err, Result-cases, Bool-cases, unwrap_or, if◌then◌else◌,
}
use pure_grpc_rs.Base.Maps.{get}
use pure_grpc_rs.Base.Text.{ascii}
use pure_grpc_rs.Base.Words.{Bytes}
use pure_grpc_rs.Crates.{Crates}
use pure_grpc_rs.Reflection.{
  DescriptorProtos, descriptor, no_more, one_more, ServiceDescriptorProto, FileDescriptorProto,
  Prost, Symbols, make_fqn, index_names, index_message_types, ReflectionServerBuilder,
  index_service, index_services, index_file, index_file_name, register_files,
  register_encoded_file_descriptor_set, contains, build, answer, file_containing_symbol, file_or,
  not_found,
}

-- The names that are given.
abbrev pub present : (Bytes → Bytes) → List (Option Bytes) → List Bytes
present qualify [] = []
present qualify (none ∷ names) = present qualify names
present qualify (some name ∷ names) = qualify name ∷ present qualify names

-- The symbols that message types declare: their own names, and those inside them.
abbrev pub of_messages : Bytes → DescriptorProtos → List Bytes
of_messages parent no_more = []
of_messages parent (one_more (descriptor none nested enums) messages) = of_messages parent messages
of_messages parent (one_more (descriptor (some name) nested enums) messages) =
    make_fqn parent name
    ∷ (of_messages (make_fqn parent name) nested
        ++ (present (make_fqn (make_fqn parent name)) enums ++ of_messages parent messages))

abbrev pub of_service : Bytes → Option Bytes → List (Option Bytes) → List Bytes
of_service package_name none method = []
of_service package_name (some name) method =
    let fqn = make_fqn package_name name in fqn ∷ present (λ m. fqn ++ (b'.' ∷ m)) method

abbrev pub of_services : Bytes → List ServiceDescriptorProto → List Bytes
of_services package_name [] = []
of_services package_name (svc ∷ services) =
    of_service package_name svc.name svc.method ++ of_services package_name services

-- All symbols of a file.
abbrev pub declared : FileDescriptorProto → List Bytes
declared file =
    let package_name = unwrap_or file.package_name [] in
    of_services package_name file.service
    ++ (of_messages package_name file.message_type
        ++ present (make_fqn package_name) file.enum_type)

abbrev pub bytes_of : Result Bytes Bytes → Option Bytes
bytes_of (ok f) = some f
bytes_of (err _) = none

-- The symbols with these names added, all of one file.
abbrev stored : Bytes → List Bytes → Symbols → Symbols
stored file_bytes [] symbols = symbols
stored file_bytes (n ∷ names) symbols = stored file_bytes names ((n, file_bytes) ∷ symbols)

stored-append :
    (f : Bytes) (a b : List Bytes) (s : Symbols) → stored f (a ++ b) s ≡ stored f b (stored f a s)
stored-append f [] b s = refl
stored-append f (n ∷ a) b s = stored-append f a b ((n, f) ∷ s)

index_names-stored :
    (q : Bytes → Bytes) (f : Bytes) (names : List (Option Bytes)) (s : Symbols)
    → index_names q f names s ≡ stored f (present q names) s
unfolding index_names
index_names-stored q f [] s = refl
index_names-stored q f (none ∷ names) s = index_names-stored q f names s
index_names-stored q f (some n ∷ names) s = index_names-stored q f names ((q n, f) ∷ s)

index_message_types-stored :
    (parent : Bytes) (messages : DescriptorProtos) (f : Bytes) (s : Symbols)
    → index_message_types parent messages f s ≡ stored f (of_messages parent messages) s
unfolding index_message_types
index_message_types-stored parent no_more f s = refl
index_message_types-stored parent (one_more (descriptor none nested enums) messages) f s =
    index_message_types-stored parent messages f s
index_message_types-stored parent (one_more (descriptor (some name) nested enums) messages) f s =
    let fqn = make_fqn parent name in
    let inner = index_message_types-stored fqn nested f ((fqn, f) ∷ s) in
    let names = present (make_fqn fqn) enums in
    let start : Symbols = (fqn, f) ∷ s in
    index_message_types-stored parent messages f
      (index_names (make_fqn fqn) f enums (index_message_types fqn nested f start))
    ∙ ap (stored f (of_messages parent messages)) (
        index_names-stored (make_fqn fqn) f enums (index_message_types fqn nested f start)
        ∙ ap (stored f names) inner)
    ∙ sym (
        stored-append f (of_messages fqn nested) (names ++ of_messages parent messages) start
        ∙ stored-append f names (of_messages parent messages)
            (stored f (of_messages fqn nested) start))

get-stored :
    (f k : Bytes) (names : List Bytes) (s : Symbols)
    → get k (stored f names s) ≡ (if contains names k then some f else get k s)
unfolding get contains
get-stored f k [] s = refl
get-stored f k (n ∷ names) s = elim (Bool-cases (contains names k)) [
  | inl y ↦ ground (arith, get-stored f k names ((n, f) ∷ s), y)
  | inr y ↦ ground (arith, get-stored f k names ((n, f) ∷ s), y)
]

index_service-stored :
    (q : Bytes) (name : Option Bytes) (method : List (Option Bytes)) (f : Bytes)
    (b : ReflectionServerBuilder)
    → (index_service q name method f b).symbols ≡ stored f (of_service q name method) b.symbols
unfolding index_service
index_service-stored q none method f b = refl
index_service-stored q (some name) method f b =
    let fqn = make_fqn q name in
    index_names-stored (λ m. fqn ++ (b'.' ∷ m)) f method ((fqn, f) ∷ b.symbols)

index_services-stored :
    (q : Bytes) (services : List ServiceDescriptorProto) (f : Bytes) (b : ReflectionServerBuilder)
    → (index_services q services f b).symbols ≡ stored f (of_services q services) b.symbols
unfolding index_services
index_services-stored q [] f b = refl
index_services-stored q (svc ∷ services) f b =
    index_services-stored q services f (index_service q svc.name svc.method f b)
    ∙ ap (stored f (of_services q services)) (index_service-stored q svc.name svc.method f b)
    ∙ sym (stored-append f (of_service q svc.name svc.method) (of_services q services) b.symbols)

index_file-stored :
    (file : FileDescriptorProto) (f : Bytes) (b : ReflectionServerBuilder)
    → (index_file file f b).symbols ≡ stored f (declared file) b.symbols
unfolding index_file
index_file-stored file f b =
    let q = unwrap_or file.package_name [] in
    let services = of_services q file.service in
    let messages = of_messages q file.message_type in
    let b' : ReflectionServerBuilder = record b { files = index_file_name file.name f b.files } in
    let s = (index_services q file.service f b').symbols in
    index_names-stored (make_fqn q) f file.enum_type (index_message_types q file.message_type f s)
    ∙ ap (stored f (present (make_fqn q) file.enum_type)) (
        index_message_types-stored q file.message_type f s
        ∙ ap (stored f messages) (index_services-stored q file.service f b'))
    ∙ sym (
        stored-append f services (messages ++ present (make_fqn q) file.enum_type) b.symbols
        ∙ stored-append f messages (present (make_fqn q) file.enum_type)
            (stored f services b.symbols))

module _ (x : Crates) (p : Prost) where
  -- The bytes of the last file that declares a symbol.
  abbrev pub last_declaring : Bytes → List FileDescriptorProto → Option Bytes → Option Bytes
  last_declaring k [] o = o
  last_declaring k (file ∷ files) o =
      last_declaring k files (if contains (declared file) k then bytes_of (p.encode file) else o)

  register_files-symbols :
      (files : List FileDescriptorProto) (b b' : ReflectionServerBuilder) (k : Bytes)
      → register_files x p files b ≡ ok b'
      → get k b'.symbols ≡ last_declaring k files (get k b.symbols)
  unfolding register_files
  register_files-symbols [] b b' k e = ground (arith, e)
  register_files-symbols (file ∷ files) b b' k e = elim (Result-cases (p.encode file)) [
    | inr (t, q) ↦ ground (arith, e, q)
    | inl (f, q) ↦
        register_files-symbols files (index_file file f b) b' k (ground (arith, e, q))
        ∙ ap (last_declaring k files) (
            ap (get k) (index_file-stored file f b)
            ∙ get-stored f k (declared file) b.symbols
            ∙ ap (λ r. if contains (declared file) k then bytes_of r else get k b.symbols) (sym q))
  ]

  register_set-symbols :
      (files : List FileDescriptorProto) (encoded k : Bytes) (b b' : ReflectionServerBuilder)
      → p.decode encoded ≡ ok files
      → register_encoded_file_descriptor_set x p encoded b ≡ ok b'
      → get k b'.symbols ≡ last_declaring k files (get k b.symbols)
  unfolding register_encoded_file_descriptor_set
  register_set-symbols files encoded k b b' d e =
      register_files-symbols files b b' k (ground (arith, d, e))

  -- After a descriptor set has been registered, a request for the file that contains a symbol is
  -- answered with the bytes of the last file of the set that declares it, or else with what was
  -- registered before, or with the error that the symbol was not found. A file declares its
  -- services with their methods, its message types with the types and enums nested in them, and
  -- its enums, under their qualified names.
  pub answer-file_containing_symbol :
      (files : List FileDescriptorProto) (encoded k : Bytes) (b b' : ReflectionServerBuilder)
      → p.decode encoded ≡ ok files
      → register_encoded_file_descriptor_set x p encoded b ≡ ok b'
      → answer (build b') (some (file_containing_symbol k))
        ≡ file_or
            (not_found (ascii "symbol not found: ") k)
            (last_declaring k files (get k b.symbols))
  unfolding answer build
  answer-file_containing_symbol files encoded k b b' d e =
      ap (file_or (not_found (ascii "symbol not found: ") k))
        (register_set-symbols files encoded k b b' d e)
