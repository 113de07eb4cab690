-- ===== src/Types/Codes.antt =====
-- `ErrorCode` of types/src/jsonrpc/error.rs.
use jsonrpsee.Base.{String, Bool, ◌&&◌, ◌≡◌, arith, if◌then◌else◌}
use jsonrpsee.Base.Int.{ℤ, negsuc, int_beq, int_leb}

pub data ErrorCode : Type 0 where
  parse_error invalid_request method_not_found invalid_params internal_error : ErrorCode
  server_error : ℤ → ErrorCode
  method_error : ℤ → ErrorCode

-- `ErrorCode::code`
unfoldable pub code : ErrorCode → ℤ
code parse_error = negsuc 32699
code invalid_request = negsuc 32599
code method_not_found = negsuc 32600
code invalid_params = negsuc 32601
code internal_error = negsuc 32602
code (server_error z) = z
code (method_error z) = z

-- `ErrorCode::description`
unfoldable pub description : ErrorCode → String
description parse_error = "Parse error"
description invalid_request = "Invalid request"
description method_not_found = "Method not found"
description invalid_params = "Invalid params"
description internal_error = "Internal error"
description (server_error z) = "Server error"
description (method_error z) = "Method error"

-- `-32099..=-32000`
abbrev pub in_server_range : ℤ → Bool
in_server_range z = int_leb (negsuc 32098) z && int_leb z (negsuc 31999)

-- `From<i64> for ErrorCode`
unfoldable pub from_i64 : ℤ → ErrorCode
from_i64 z =
    if int_beq z (negsuc 32699)
    then parse_error
    else if int_beq z (negsuc 32599)
    then invalid_request
    else if int_beq z (negsuc 32600)
    then method_not_found
    else if int_beq z (negsuc 32601)
    then invalid_params
    else if int_beq z (negsuc 32602)
    then internal_error
    else if in_server_range z
    then server_error z
    else method_error z

-- Parsing the number of an error code and printing it again gives the same number.
pub code-from_i64 : (z : ℤ) → code (from_i64 z) ≡ z
unfolding code from_i64
code-from_i64 z = ground arith
