-- ===== src/Tests/IdsTests.antt =====
-- The theorems of the trace ids at concrete inputs.
use pepperbus.Base.{ℕ, ◌+◌, ◌≡◌, arith}
use pepperbus.Base.Text.{Text}
use pepperbus.Base.Decimal.{format_uint}
use pepperbus.Base.Int.{pos}
use pepperbus.Ids.{service_id, BusId, bus_id, parse_trace_id}
use pepperbus.Ids.Trace.{dotted, uint-Without, parse_trace_id-gen_trace_id}
use pepperbus.Job.Parse.{gen_trace_id}

abbrev ids : ℕ → ℕ
ids n = 4000000 + n

abbrev port : Text
port = format_uint 12017

abbrev expected : BusId
expected = record {
  create_time = pos 4000003;
  gateway_ip = dotted 192 168 0 17;
  gateway_port = port;
}

parse_trace_id-gen_trace_id_example :
    parse_trace_id (λ z. z) (gen_trace_id ids (service_id (dotted 192 168 0 17) port) 3)
    ≡ bus_id expected
parse_trace_id-gen_trace_id_example =
    parse_trace_id-gen_trace_id 192 168 0 17 (omega arith) (omega arith) (omega arith) (omega arith)
      ids (λ z. z) port 3 (omega arith) (uint-Without b'-' 12017 (omega arith))
