-- ===== src/Tests/Headers.antt =====
-- Statuses, metadata and compression headers at concrete inputs.
use pure_grpc_rs.Base.{◌≤◌, [], ◌∷◌, some, ◌≡◌, refl, arith, All, ok}
use pure_grpc_rs.Base.Text.{ascii}
use pure_grpc_rs.Code.{Code}
use pure_grpc_rs.Crates.Model.{model_crates, Entries}
use pure_grpc_rs.Status.{Status, from_header_map, to_header_map}
use pure_grpc_rs.Status.Wire.{SameStatus, from_header_map-to_header_map}

abbrev rich : Status Entries
rich = record {
  code = Code.not_found;
  message = ascii "no 100%";
  details = 255 ∷ 0 ∷ [];
  metadata = record { headers = ("x-id", ascii "7") ∷ ("te", ascii "trailers") ∷ [] };
}

rich_message : All (λ b. b ≤ 255) (ascii "no 100%")
rich_message = ground arith

rich_details : All (λ b. b ≤ 255) (255 ∷ 0 ∷ [])
rich_details = ground arith

from_header_map-to_header_map_example :
    (h : Entries) × (s' : Status Entries) × (to_header_map model_crates rich ≡ ok h)
    × (from_header_map model_crates h ≡ some s')
    × SameStatus model_crates rich s'
from_header_map-to_header_map_example =
    from_header_map-to_header_map model_crates rich rich_message rich_details refl
