-- ===== src/Ids.antt =====
-- id.go: the address of the gateway in the trace ids that it gives out, and what `ParseTraceId`
-- reads from them. The time in an id of `idgen` (`GetTimeUnixMill`) is a parameter.
pub mod Trace
use Prim.Native.Nat.{bit_and, bit_or}
use pepperbus.Base.{ℕ, ◌-◌, ◌*◌, ◌/◌, ◌%◌, ◌^◌, List, [], ◌∷◌, ◌++◌}
use pepperbus.Base.Int.{ℤ}
use pepperbus.Base.Text.{Text, split}
use pepperbus.Base.Decimal.{format_uint, Parsed, value, bad_syntax, out_of_range, parse_uint}
use pepperbus.Base.Signed.{ParsedInt, int_value, bad_int, int_out_of_range, parse_int}

-- `a << k` on a uint64.
abbrev shift_left : ℕ → ℕ → ℕ
shift_left a k = a * 2 ^ k % 2 ^ 64

-- The number that `ParseUint` returns when its error is thrown away.
abbrev number : Parsed → ℕ
number (value n) = n
number bad_syntax = 0
number out_of_range = 2 ^ 64 - 1

abbrev of_parts : List Text → ℕ
of_parts (a ∷ b ∷ c ∷ d ∷ []) =
    bit_or
      (bit_or
        (bit_or (shift_left (number (parse_uint a)) 24) (shift_left (number (parse_uint b)) 16))
        (shift_left (number (parse_uint c)) 8))
      (number (parse_uint d))
of_parts _ = 0

-- `IP2Num`.
unfoldable pub ip2num : Text → ℕ
unfolding split parse_uint
ip2num ip = of_parts (split b'.' ip)

-- `Num2IP`.
unfoldable pub num2ip : ℕ → Text
unfolding format_uint
num2ip n =
    format_uint (bit_and n 0xff000000 / 2 ^ 24)
    ++ b'.'
      ∷ (format_uint (bit_and n 0xff0000 / 2 ^ 16)
          ++ b'.' ∷ (format_uint (bit_and n 0xff00 / 2 ^ 8) ++ b'.' ∷ format_uint (bit_and n 0xff)))

-- `updateServiceId`, at the address and the port of the gateway.
unfoldable pub service_id : Text → Text → Text
unfolding ip2num format_uint
service_id ip port = b'-' ∷ (format_uint (ip2num ip) ++ b'-' ∷ port)

pub record BusId : Type 0 where
  pub create_time : ℤ
  pub gateway_ip : Text
  pub gateway_port : Text

pub data Read : Type 0 where
  bus_id : BusId → Read
  bad_format bad_time bad_ip : Read

abbrev with_ip : ℤ → Text → Parsed → Read
with_ip time port (value n) =
    bus_id (record { create_time = time; gateway_ip = num2ip n; gateway_port = port })
with_ip time port bad_syntax = bad_ip
with_ip time port out_of_range = bad_ip

abbrev with_time : (ℤ → ℤ) → Text → Text → ParsedInt → Read
with_time time_of ip port (int_value z) = with_ip (time_of z) port (parse_uint ip)
with_time time_of ip port bad_int = bad_time
with_time time_of ip port int_out_of_range = bad_time

abbrev of_fields : (ℤ → ℤ) → List Text → Read
of_fields time_of (id ∷ ip ∷ port ∷ []) = with_time time_of ip port (parse_int id)
of_fields time_of _ = bad_format

-- `ParseTraceId`.
unfoldable pub parse_trace_id : (ℤ → ℤ) → Text → Read
unfolding num2ip split parse_int parse_uint
parse_trace_id time_of id = of_fields time_of (split b'-' id)
