-- ===== src/Web/Service.antt =====
-- What the service around a gRPC service does with a call (grpc-web/src/service.rs).
use pure_grpc_rs.Base.{true, false, List, ◌∷◌, ◌++◌, none, some, ◌≡◌, refl, ◌∙◌, ◌≤◌, All}
use pure_grpc_rs.Base.Text.{ascii}
use pure_grpc_rs.Codec.Decode.{BodyEvent, trailers_frame}
use pure_grpc_rs.Codec.Decode.Deliver.{data_of, after_data}
use pure_grpc_rs.Crates.{Crates}
use pure_grpc_rs.Request.{HttpRequest, HttpResponse}
use pure_grpc_rs.Web.{
  is_grpc_web, from_content_type, content_type_of, wrapped_request, to_grpc, to_grpc_web, call,
  grpc, response_type,
}
use pure_grpc_rs.Web.Body.{Encoding, binary, trailer_frame, Call}
use pure_grpc_rs.Web.Sent.{Sent, AreBytes, response-Sent}

module _ (x : Crates) {E : Type 0}
    (inner : HttpRequest x.Headers E (Call x)
      → HttpResponse x.Headers E (List (BodyEvent x.Headers)))
    (req : HttpRequest x.Headers E (List (BodyEvent x.Headers))) where
  open x use {Headers, http}

  removed : (m : Headers) → http.get "content-length" (http.remove "content-length" m) ≡ none
  removed m = http.get-remove "content-length" "content-length" m

  type_is :
      (e : Encoding) (m : Headers)
      → http.get "content-type" (to_grpc_web x e m) ≡ some (response_type e)
  unfolding to_grpc_web
  type_is e m =
      http.get-remove "content-length" "content-type"
        (http.insert "content-type" (response_type e) m)
      ∙ http.get-insert "content-type" "content-type" (response_type e) m

  grpc_type : (m : Headers) → http.get "content-type" (to_grpc x m) ≡ some grpc
  unfolding to_grpc
  grpc_type m =
      let typed = http.insert "content-type" grpc m in
      http.get-insert "te" "content-type" (ascii "trailers") (http.remove "content-length" typed)
      ∙ http.get-remove "content-length" "content-type" typed
      ∙ http.get-insert "content-type" "content-type" grpc m

  te_trailers : (m : Headers) → http.get "te" (to_grpc x m) ≡ some (ascii "trailers")
  unfolding to_grpc
  te_trailers m =
      http.get-insert "te" "te" (ascii "trailers")
        (http.remove "content-length" (http.insert "content-type" grpc m))

  -- For a request with a gRPC-Web content type, the inner service is given the content type
  -- application/grpc and the header te: trailers; the response has the gRPC-Web content type of
  -- the request's encoding and no content length; and its body carries the inner body's data and
  -- then the trailers as in `response-Sent`, in that encoding.
  pub call-translated :
      {h : Headers} {more : List (BodyEvent Headers)}
      → is_grpc_web (content_type_of x req.headers) ≡ true
      → let e = from_content_type (content_type_of x req.headers) in
        let resp = inner (wrapped_request x e req (to_grpc x)) in
        after_data resp.body ≡ trailers_frame h ∷ more
        → AreBytes x resp.body
        → All (λ b. b ≤ 255) (trailer_frame x h)
        → Sent x (call x inner req).body e (data_of resp.body ++ trailer_frame x h)
          × (http.get "content-type" (call x inner req).headers ≡ some (response_type e))
          × (http.get "content-length" (call x inner req).headers ≡ none)
          × (http.get "content-type" (to_grpc x req.headers) ≡ some grpc)
          × (http.get "te" (to_grpc x req.headers) ≡ some (ascii "trailers"))
  unfolding call
  call-translated {h} g t b q =
      let e = from_content_type (content_type_of x req.headers) in
      let resp = inner (wrapped_request x e req (to_grpc x)) in
      rw g (
        response-Sent x e resp.body h t b q,
        type_is e resp.headers,
        removed (http.insert "content-type" (response_type e) resp.headers),
        grpc_type req.headers,
        te_trailers req.headers,
      )

  -- For a request with another content type, the response keeps the headers of the inner service,
  -- but its body gives the trailers as a last data frame and no HTTP trailers, also for a native
  -- gRPC client.
  pub call-passed_through :
      {h : Headers} {more : List (BodyEvent Headers)}
      → is_grpc_web (content_type_of x req.headers) ≡ false
      → let resp = inner (wrapped_request x binary req (λ m. m)) in
        after_data resp.body ≡ trailers_frame h ∷ more
        → AreBytes x resp.body
        → All (λ b. b ≤ 255) (trailer_frame x h)
        → Sent x (call x inner req).body binary (data_of resp.body ++ trailer_frame x h)
          × ((call x inner req).headers ≡ resp.headers)
  unfolding call
  call-passed_through {h} g t b q =
      let resp = inner (wrapped_request x binary req (λ m. m)) in
      rw g (response-Sent x binary resp.body h t b q, refl)
