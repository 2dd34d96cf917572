-- ===== src/Code.antt =====
-- The table `define_codes!` of grpc-core/src/status.rs: the codes and their conversions. The texts
-- of `description`, for display only, are left out.
pub mod Laws
use pure_grpc_rs.Base.{ℕ, Bool, List, [], ◌∷◌, if◌then◌else◌, ◌==◌}
use pure_grpc_rs.Base.Int.{ℤ, pos, negsuc}
use pure_grpc_rs.Base.Text.{ascii, decimal}
use pure_grpc_rs.Base.Words.{Bytes, same}

pub data Code : Type 0 where
  ok cancelled unknown invalid_argument deadline_exceeded not_found already_exists : Code
  permission_denied resource_exhausted failed_precondition aborted out_of_range : Code
  unimplemented internal unavailable data_loss unauthenticated : Code

-- The rows of `define_codes!`, in their order.
abbrev pub variants : List Code
variants =
    ok ∷ cancelled ∷ unknown ∷ invalid_argument ∷ deadline_exceeded ∷ not_found ∷ already_exists
    ∷ permission_denied ∷ resource_exhausted ∷ failed_precondition ∷ aborted ∷ out_of_range
    ∷ unimplemented ∷ internal ∷ unavailable ∷ data_loss ∷ unauthenticated ∷ []

-- `code as i32`, never negative: the column `$num`.
abbrev pub num : Code → ℕ
num ok = 0
num cancelled = 1
num unknown = 2
num invalid_argument = 3
num deadline_exceeded = 4
num not_found = 5
num already_exists = 6
num permission_denied = 7
num resource_exhausted = 8
num failed_precondition = 9
num aborted = 10
num out_of_range = 11
num unimplemented = 12
num internal = 13
num unavailable = 14
num data_loss = 15
num unauthenticated = 16

-- The column `$str_val`.
abbrev pub str_val : Code → Bytes
str_val ok = ascii "0"
str_val cancelled = ascii "1"
str_val unknown = ascii "2"
str_val invalid_argument = ascii "3"
str_val deadline_exceeded = ascii "4"
str_val not_found = ascii "5"
str_val already_exists = ascii "6"
str_val permission_denied = ascii "7"
str_val resource_exhausted = ascii "8"
str_val failed_precondition = ascii "9"
str_val aborted = ascii "10"
str_val out_of_range = ascii "11"
str_val unimplemented = ascii "12"
str_val internal = ascii "13"
str_val unavailable = ascii "14"
str_val data_loss = ascii "15"
str_val unauthenticated = ascii "16"

abbrev pub code_to_i32 : Code → ℤ
code_to_i32 c = pos (num c)

-- A `match` on a column of the table, `Unknown` where no row fits.
match_rows : (Code → Bool) → List Code → Code
match_rows test [] = unknown
match_rows test (c ∷ cs) = if test c then c else match_rows test cs

unfoldable pub from_i32 : ℤ → Code
unfolding match_rows
from_i32 (pos n) = match_rows (λ c. n == num c) variants
from_i32 (negsuc n) = unknown

unfoldable pub from_bytes : Bytes → Code
unfolding match_rows same
from_bytes b = match_rows (λ c. same b (str_val c)) variants

-- `stringify!($num)` as a header value.
unfoldable pub to_header_value : Code → Bytes
unfolding decimal
to_header_value c = decimal (num c)
