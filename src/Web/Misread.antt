-- ===== src/Web/Misread.antt =====
-- A base64 request whose body is cut inside a group of four characters (grpc-web/src/call.rs).
use pure_grpc_rs.Base.{
  [], ◌∷◌, ◌++◌, none, some, ◌≡◌, refl, ap, arith, ok, pending, ready, length, length-append, take,
  drop,
}
use pure_grpc_rs.Base.Words.{Bytes}
use pure_grpc_rs.Codec.Decode.{data_frame}
use pure_grpc_rs.Crates.{Crates}
use pure_grpc_rs.Web.Body.{
  base64, request, Call, of_data, poll_frame, poll_decode, decode_data, decode_buffered,
}

module _ (x : Crates) where
  open x use {Headers}

  take_all : (xs : Bytes) → (take (length xs) xs ≡ xs) × (drop (length xs) xs ≡ [])
  take_all [] = (refl, refl)
  take_all (b ∷ xs) = let (t, d) = take_all xs in (ap (◌∷◌ b) t, d)

  -- A base64 request whose text is cut into data frames of three characters, of some that decode
  -- by themselves and of one, where the first and the last do not decode by themselves but
  -- together, is decoded out of order: the bytes of the middle frame come first, and then those of
  -- the other two.
  pub poll_frame-misread :
      (a b c y z : Bytes)
      → length a ≡ 3
      → length c ≡ 1
      → x.decode_padded a ≡ none
      → x.decode_padded b ≡ some y
      → x.decode_padded c ≡ none
      → x.decode_padded (a ++ c) ≡ some z
      → (c1 c2 c3 : Call x) × (poll_frame x
            (request base64 (data_frame a ∷ data_frame b ∷ data_frame c ∷ []))
          ≡ (c1, pending))
        × (poll_frame x c1 ≡ (c2, ready (some (ok (of_data y)))))
        × (poll_frame x c2 ≡ (c3, ready (some (ok (of_data z)))))
        × (poll_frame x c3 ≡ (c3, ready none))
  unfolding poll_frame poll_decode decode_data decode_buffered
  poll_frame-misread a b c y z la lc da db dc dz =
      let whole : length (a ++ c) ≡ 4 = omega (arith, la, lc, length-append a c) in
      let (t, d) = take_all (a ++ c) in
      let c1 : Call x = record (request base64 (data_frame b ∷ data_frame c ∷ [])) { buf = a } in
      let c2 : Call x = record (request base64 (data_frame c ∷ [])) { buf = a } in
      let c3 : Call x = record (request base64 []) { buf = [] } in
      (
        c1,
        c2,
        c3,
        ground (arith, la, da),
        ground (arith, db),
        ground (arith, dc, dz, whole, t, d),
        refl,
      )
