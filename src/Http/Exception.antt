-- ===== src/Http/Exception.antt =====
-- The exceptions that the services throw: NestJS's `HttpException` subclasses by their status, and
-- any other JavaScript error by its message.
use eventify.Common.{ℕ, String}

pub data Exception : Type 0 where
  http : ℕ → String → Exception
  error : String → Exception

abbrev pub bad_request : String → Exception
bad_request = http 400

abbrev pub unauthorized : String → Exception
unauthorized = http 401

abbrev pub not_found : String → Exception
not_found = http 404

abbrev pub conflict : String → Exception
conflict = http 409

abbrev pub internal_server_error : String → Exception
internal_server_error = http 500

-- `error.message`.
abbrev pub message : Exception → String
message (http status text) = text
message (error text) = text
