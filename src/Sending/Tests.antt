-- ===== src/Sending/Tests.antt =====
-- Failed sends and what is said of them.
use Prim.Native.String.{String}
use whatsapp_os.Prelude.{ℕ, ◌≡◌, refl, none, some, ◌==◌, if◌then◌else◌}
use whatsapp_os.Sending.{
  Caught, nothing, object, rate_limit_error, SendError, extract_transport_code, extract_from,
}

-- A printer for the three numbers that are shown here.
abbrev show : ℕ → String
show n = if n == 401 then "401" else if n == 500 then "500" else "190"

-- `fetch failed`, with the refused socket in its cause.
abbrev refused : Caught
refused = object none "TypeError" nothing (object (some "ECONNREFUSED") "Error" nothing nothing)

code_run : extract_transport_code refused ≡ some "ECONNREFUSED"
unfolding extract_transport_code extract_from
code_run = refl

abbrev throttled : SendError
throttled = rate_limit_error none 30
