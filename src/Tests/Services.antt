-- ===== src/Tests/Services.antt =====
-- Interceptors, balancing, codecs and reflection at concrete inputs.
use pure_grpc_rs.Balance.{
  BalancedChannel, from_uris, connect_all, calls, num_endpoints, calls-from_uris,
}
use pure_grpc_rs.Base.{
  take, drop, ℕ, ◌%◌, List, [], ◌∷◌, ◌++◌, none, some, ◌≡◌, refl, arith, Result, ok, err, ready,
  length, get_elem?,
}
use pure_grpc_rs.Base.Maps.{get}
use pure_grpc_rs.Base.Text.{ascii}
use pure_grpc_rs.Base.Words.{Bytes}
use pure_grpc_rs.Call.{delivered_back}
use pure_grpc_rs.Client.{create_response}
use pure_grpc_rs.Code.{Code}
use pure_grpc_rs.Codec.{Decoder}
use pure_grpc_rs.Codec.Decode
use pure_grpc_rs.Codec.Decode.Deliver.{frame}
use pure_grpc_rs.Codec.Decode.Stream.{one_more as one_frame}
use pure_grpc_rs.Codec.Decode.{data_frame, read_body, request, poll_next, Stream}
use pure_grpc_rs.Crates.Model.{model_crates, Entries}
use pure_grpc_rs.Interceptor.{Interceptor, Service, call, call-refused}
use pure_grpc_rs.Messages.{FlatBufferMessage, flat_decoder, poll_next-undecodable}
use pure_grpc_rs.Reflection.{
  ServerReflectionRequest, Prost, descriptor, no_more, one_more, FileDescriptorProto,
  ReflectionServerBuilder, builder, build, answer, file_containing_symbol, file_or, not_found,
  register_encoded_file_descriptor_set, register_files, index_file, index_services,
  index_message_types, index_names, make_fqn,
}
use pure_grpc_rs.Reflection.Indexed.{last_declaring, answer-file_containing_symbol}
use pure_grpc_rs.Request.{HttpRequest}
use pure_grpc_rs.Status
use pure_grpc_rs.Status.{Status}
use pure_grpc_rs.Tests.Codec.{byte_decoder, refusal}
use pure_grpc_rs.Tests.Exchange.{bytes_of_empty}
use pure_grpc_rs.Tests.Negotiation.{one_uri, caller}

abbrev connected : ℕ → Result Bytes ℕ
connected u = ok u

abbrev three : BalancedChannel ℕ
three = record { channels = 10 ∷ 20 ∷ 30 ∷ []; next = 0 }

three_made : from_uris connected (10 ∷ 20 ∷ 30 ∷ []) ≡ ok three
unfolding from_uris connect_all
three_made = refl

calls-from_uris_example :
    (cs : List ℕ) × (calls 7 three ≡ some cs)
    × (length cs ≡ 7)
    × (get_elem? cs 4 ≡ get_elem? (10 ∷ 20 ∷ 30 ∷ []) (4 % 3))
    × (num_endpoints three ≡ 3)
calls-from_uris_example =
    calls-from_uris connected (10 ∷ 20 ∷ 30 ∷ []) three 7 4 three_made (omega arith) (omega arith)

abbrev a_request : HttpRequest Entries (Unit {0}) Bytes
a_request = record {
  method = "POST";
  uri = "/a/b";
  version = "HTTP/2.0";
  headers = ("x-id", ascii "7") ∷ [];
  extensions = tt;
  body = [];
}

abbrev mirror : Service model_crates (Unit {0}) Bytes Bytes
mirror r = record {
  status = 200;
  version = "HTTP/2.0";
  headers = r.headers;
  extensions = r.extensions;
  body = r.body;
}

abbrev rejects : Interceptor model_crates (Unit {0}) Bytes Bytes
rejects r = err refusal

call-refused_example :
    (f : Status Entries) × (create_response model_crates one_uri byte_decoder caller tt
        (delivered_back model_crates [] (call model_crates tt [] mirror rejects a_request))
      ≡ err f)
    × (f.code ≡ Code.invalid_argument)
    × (f.message ≡ ascii "empty")
    × (f.details ≡ [])
call-refused_example =
    call-refused model_crates tt [] one_uri byte_decoder caller tt [] mirror rejects a_request
      refusal refl bytes_of_empty tt refl refl

-- A message behind one byte.
abbrev read_behind : Bytes → Result Bytes Bytes
read_behind [] = err (ascii "no byte")
read_behind (_ ∷ m) = ok m

abbrev behind : FlatBufferMessage Bytes
behind = record {
  encode_flatbuffer = λ m. 7 ∷ m;
  decode_flatbuffer = read_behind;
  decode_flatbuffer-encode_flatbuffer = λ m. refl;
}

abbrev stuck : Stream model_crates (flat_decoder model_crates behind)
stuck = record {
  decoder = tt;
  inner = record {
    body = [];
    state = read_body none 0;
    direction = request;
    buf = 5 ∷ [];
    trailers = none;
    decompress_buf = [];
    encoding = none;
    max_message_size = none;
  };
}

poll_next-undecodable_example :
    poll_next model_crates (flat_decoder model_crates behind) stuck
    ≡ some (
      stuck,
      ready (
          some (
            err (
              Status.new model_crates Code.internal
                (ascii "FlatBuffers decode error: " ++ ascii "no byte")))),
    )
poll_next-undecodable_example =
    poll_next-undecodable model_crates behind stuck [] (5 ∷ []) (ascii "no byte") refl refl refl

abbrev a_file : FileDescriptorProto
a_file = record {
  name = some (ascii "a.proto");
  package_name = some (ascii "p");
  service = [];
  message_type =
      one_more
        (descriptor (some (ascii "M")) (one_more (descriptor (some (ascii "N")) no_more []) no_more)
          [])
        no_more;
  enum_type = some (ascii "E") ∷ [];
}

abbrev one_file : Prost
one_file = record { decode = λ b. ok (a_file ∷ []); encode = λ f. ok (1 ∷ 2 ∷ []) }

abbrev with_file : ReflectionServerBuilder
with_file = record {
  service_names = [];
  symbols =
      (ascii "p.E", 1 ∷ 2 ∷ []) ∷ (ascii "p.M.N", 1 ∷ 2 ∷ []) ∷ (ascii "p.M", 1 ∷ 2 ∷ []) ∷ [];
  files = (ascii "a.proto", 1 ∷ 2 ∷ []) ∷ [];
}

file_registered :
    register_encoded_file_descriptor_set model_crates one_file [] builder ≡ ok with_file
unfolding register_encoded_file_descriptor_set register_files index_file index_services
    index_message_types index_names make_fqn
file_registered = refl

answer-file_containing_symbol_example :
    answer (build with_file) (some (file_containing_symbol (ascii "p.M.N")))
    ≡ file_or (not_found (ascii "symbol not found: ") (ascii "p.M.N")) (
        last_declaring model_crates one_file (ascii "p.M.N") (a_file ∷ []) (get (ascii "p.M.N") []))
answer-file_containing_symbol_example =
    answer-file_containing_symbol model_crates one_file (a_file ∷ []) [] (ascii "p.M.N") builder
      with_file refl file_registered

-- A request is the symbol that it asks for.
abbrev symbol_request : Bytes → ServerReflectionRequest
symbol_request symbol = record { host = []; message_request = some (file_containing_symbol symbol) }

abbrev symbol_decoder : Decoder Entries ServerReflectionRequest
symbol_decoder = record {
  State = Unit;
  decode = λ u b. (
    u,
    record { buf = drop b.len b.buf; len = 0 },
    ok (some (symbol_request (take b.len b.buf))),
  );
}

abbrev asking : Stream model_crates symbol_decoder
asking =
    Decode.new model_crates symbol_decoder tt (data_frame (frame 0 (ascii "p.E")) ∷ []) request none
      none
