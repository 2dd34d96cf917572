-- ===== src/Codegen/Ir.antt =====
-- grpc-codegen/src/flatbuffers.rs, `service_to_ir`: the definitions that the generators read, from
-- those of a FlatBuffers schema. What `StreamingType` is belongs to the crate codegen-schema.
use pure_grpc_rs.Base.{
  Bool, true, false, List, [], ◌∷◌, ◌++◌, ◌≡◌, ◌∙◌, ap, refl, All, Result, ok, err, ◌>>=◌, map,
}
use pure_grpc_rs.Base.Text.{ascii}
use pure_grpc_rs.Base.Words.{Bytes}
use pure_grpc_rs.Codegen.{MethodDef, ServiceDef}

abbrev pub fb_codec_path : Bytes
fb_codec_path = ascii "grpc_codec_flatbuffers::FlatBuffersCodec"

module _ {StreamingType : Type 0} (is_unary : StreamingType → Bool)
    (streaming_mode : StreamingType → Bytes) where
  abbrev pub unsupported : MethodDef StreamingType → Bytes
  unsupported m =
      ascii "FlatBuffers gRPC stub generator does not yet support streaming RPC `"
      ++ (m.name ++ (ascii "` (mode: " ++ (streaming_mode m.streaming ++ ascii ")")))

  abbrev pub rewritten : MethodDef StreamingType → MethodDef StreamingType
  rewritten m = record {
    name = m.name;
    rust_name = m.rust_name;
    input_type = ascii "super::" ++ m.input_type;
    output_type = ascii "super::" ++ m.output_type;
    streaming = m.streaming;
    codec_path = fb_codec_path;
    comments = m.comments;
  }

  -- The loop, which gives up at the first streaming method.
  unfoldable pub methods_to_ir :
      List (MethodDef StreamingType) → Result Bytes (List (MethodDef StreamingType))
  methods_to_ir [] = ok []
  methods_to_ir (m ∷ ms) = elim (is_unary m.streaming) [
    | false ↦ err (unsupported m)
    | true ↦ do methods ← methods_to_ir ms; ok (rewritten m ∷ methods)
  ]

  unfoldable pub service_to_ir : ServiceDef StreamingType → Result Bytes (ServiceDef StreamingType)
  unfolding methods_to_ir
  service_to_ir svc = do
    methods ← methods_to_ir svc.methods
    ok (record {
      name = svc.name;
      package_name = svc.package_name;
      methods = methods;
      comments = svc.comments;
    })

  methods_to_ir-unary :
      (ms : List (MethodDef StreamingType))
      → All (λ m. is_unary m.streaming ≡ true) ms
      → methods_to_ir ms ≡ ok (map rewritten ms)
  unfolding methods_to_ir
  methods_to_ir-unary [] u = refl
  methods_to_ir-unary (m ∷ ms) (u, us) = rw (u, methods_to_ir) (rw (methods_to_ir-unary ms us) refl)

  methods_to_ir-streaming :
      (before after : List (MethodDef StreamingType)) (m : MethodDef StreamingType)
      → All (λ m. is_unary m.streaming ≡ true) before
      → is_unary m.streaming ≡ false
      → methods_to_ir (before ++ (m ∷ after)) ≡ err (unsupported m)
  unfolding methods_to_ir
  methods_to_ir-streaming [] after m u s = rw (s, methods_to_ir) refl
  methods_to_ir-streaming (k ∷ before) after m (u, us) s =
      rw (u, methods_to_ir) (rw (methods_to_ir-streaming before after m us s) refl)

  -- A service all of whose methods are unary is taken over, with the types of its methods in the
  -- module above and the codec of FlatBuffers.
  pub service_to_ir-methods :
      (svc : ServiceDef StreamingType)
      → All (λ m. is_unary m.streaming ≡ true) svc.methods
      → service_to_ir svc ≡ ok (record svc { methods = map rewritten svc.methods })
  unfolding service_to_ir
  service_to_ir-methods svc u = rw (methods_to_ir-unary svc.methods u) refl

  -- A service with a streaming method behind unary ones is refused with the name of that method.
  pub service_to_ir-unsupported :
      (svc : ServiceDef StreamingType) (before after : List (MethodDef StreamingType))
      (m : MethodDef StreamingType)
      → svc.methods ≡ before ++ (m ∷ after)
      → All (λ m. is_unary m.streaming ≡ true) before
      → is_unary m.streaming ≡ false
      → service_to_ir svc ≡ err (unsupported m)
  unfolding service_to_ir
  service_to_ir-unsupported svc before after m e u s =
      rw (ap methods_to_ir e ∙ methods_to_ir-streaming before after m u s) refl
