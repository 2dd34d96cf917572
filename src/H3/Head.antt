-- ===== src/H3/Head.antt =====
-- The head of a request over HTTP/3: `send_h3_request` of grpc-client/src/h3_channel.rs, up to the
-- sending of its head. What `http::Uri` says of a URI, and its builder, are a parameter.
use pure_grpc_rs.Base.{
  false, Option, none, some, String, ◌≡◌, refl, sym, ap, ◌∙◌, inl, inr, arith, Result, ok, ◌>>=◌,
  unwrap_or, Result-cases,
}
use pure_grpc_rs.Base.Text.{ascii}
use pure_grpc_rs.Base.Words.{Bytes}
use pure_grpc_rs.Compression.{
  EnabledCompressionEncodings, encoding_header, accept_encoding_header, from_encoding_header,
  from_accept_encoding_header,
}
use pure_grpc_rs.Crates.{Crates}
use pure_grpc_rs.Request.{HttpRequest}
use text.Mathlib.Text.{◌==◌}

pub record UriParts : Type 0 where
  pub scheme : String → Option Bytes
  pub path_and_query : String → Option Bytes
  -- `Uri::builder` with a scheme, an authority, and a path with its query.
  pub build : Bytes → Bytes → Bytes → Result Bytes String

module _ (x : Crates) (u : UriParts) where
  open x use {Headers, http}

  -- The URI with a scheme and the address of the server, where it has none.
  unfoldable pub h3_uri : Bytes → String → Result Bytes String
  h3_uri authority uri = elim (u.scheme uri) [
    | some _ ↦ ok uri
    | none ↦ u.build (ascii "https") authority (unwrap_or (u.path_and_query uri) (ascii "/"))
  ]

  unfoldable pub h3_head :
      {E B : Type 0} → Bytes → HttpRequest Headers E B → Result Bytes (HttpRequest Headers E B)
  unfolding h3_uri
  h3_head remote_addr req = do
    uri ← h3_uri remote_addr req.uri
    ok (record req { version = "HTTP/3.0"; headers = http.remove "te" req.headers; uri = uri })

  -- The request that goes out has the same method and body, no header `te`, and every other header
  -- as it was.
  h3_head_kept :
      {E B : Type 0} (authority : Bytes) (q q' : HttpRequest Headers E B)
      → h3_head authority q ≡ ok q'
      → (q'.method ≡ q.method)
        × (q'.body ≡ q.body)
        × (http.get "te" q'.headers ≡ none)
        × ((k : String) → ("te" == k) ≡ false → http.get k q'.headers ≡ http.get k q.headers)
  unfolding h3_head
  h3_head_kept authority q q' e = elim (Result-cases (h3_uri authority q.uri)) [
    | inr (f, n) ↦ absurd (ground (arith, e, n))
    | inl (uri, n) ↦
        let r : record q { version = "HTTP/3.0"; headers = http.remove "te" q.headers; uri = uri }
            ≡ q' =
          ground (arith, e, n) in
        (
          ap (λ v. v.method) (sym r),
          ap (λ v. v.body) (sym r),
          ap (λ v. http.get "te" v.headers) (sym r) ∙ http.get-remove "te" "te" q.headers,
          λ k f.
              ap (λ v. http.get k v.headers) (sym r)
              ∙ http.get-remove "te" k q.headers
              ∙ ground (arith, f),
        )
  ]

  -- The server reads the same encodings from it as over HTTP/2.
  h3_head-encodings :
      {E B : Type 0} (authority : Bytes) (q q' : HttpRequest Headers E B)
      (a s : EnabledCompressionEncodings)
      → h3_head authority q ≡ ok q'
      → (from_encoding_header x q'.headers a ≡ from_encoding_header x q.headers a)
        × (from_accept_encoding_header x q'.headers s ≡ from_accept_encoding_header x q.headers s)
  unfolding from_encoding_header from_accept_encoding_header
  h3_head-encodings authority q q' a s e =
      let (_, _, _, kept) = h3_head_kept authority q q' e in
      (
        rw (kept encoding_header refl, from_encoding_header) refl,
        rw (kept accept_encoding_header refl, from_accept_encoding_header) refl,
      )
