-- ===== src/Ids/Trace.antt =====
-- id.go: the address in a trace id is that of the gateway.
use Prim.Native.Nat.{bit_and, bit_or}
use pepperbus.Base.{ℕ, ◌+◌, ◌*◌, ◌/◌, ◌%◌, ◌^◌, ◌<◌, ◌≡◌, refl, ap, ◌∙◌, [], ◌∷◌, ◌++◌, arith}
use pepperbus.Base.Int.{ℤ, pos}
use pepperbus.Base.Text.{Text, split}
use pepperbus.Base.Split.{Without, split-append, split_single}
use pepperbus.Base.Bits.{and_byte, and_shifted, or_byte, or_shifted}
use pepperbus.Base.Decimal.{format_uint, parse_uint-format_uint, Digits, format_uint-Digits}
use pepperbus.Base.Signed.{parse_int, parse_int-format_int, int_value, format_int}
use pepperbus.Job.Parse.{gen_trace_id}
use pepperbus.Ids.{ip2num, num2ip, shift_left, service_id, bus_id, parse_trace_id}

id_read :
    (gen : ℕ → ℕ) (n : ℕ)
    → gen n < 2 ^ 63
    → parse_int (format_uint (gen n)) ≡ int_value (pos (gen n))
unfolding format_int
id_read gen n small = parse_int-format_int (pos (gen n)) (omega (arith, small))

-- No byte below '0' stands in a printed number.
Digits-Without : (c : ℕ) (s : Text) → c < 48 → Digits s → Without c s
Digits-Without c [] h d = tt
Digits-Without c (x ∷ s) h (dx, ds) = (λ e. omega (arith, h, dx, e), Digits-Without c s h ds)

pub uint-Without : (c n : ℕ) → c < 48 → Without c (format_uint n)
uint-Without c n h = Digits-Without c (format_uint n) h (format_uint-Digits n)

abbrev pub dotted : ℕ → ℕ → ℕ → ℕ → Text
dotted a b c d =
    format_uint a ++ b'.' ∷ (format_uint b ++ b'.' ∷ (format_uint c ++ b'.' ∷ format_uint d))

abbrev packed : ℕ → ℕ → ℕ → ℕ → ℕ
packed a b c d = ((a * 256 + b) * 256 + c) * 256 + d

split-dotted :
    (a b c d : ℕ)
    → split b'.' (dotted a b c d)
      ≡ format_uint a ∷ format_uint b ∷ format_uint c ∷ format_uint d ∷ []
split-dotted a b c d =
    rw
      (
        split-append b'.' (format_uint a) _ (uint-Without b'.' a (omega arith)),
        split-append b'.' (format_uint b) _ (uint-Without b'.' b (omega arith)),
        split-append b'.' (format_uint c) _ (uint-Without b'.' c (omega arith)),
        split_single b'.' (format_uint d) (uint-Without b'.' d (omega arith)),
      )
      refl

byte2 : (n : ℕ) → bit_and n 0xff00 ≡ n / 256 % 256 * 256
byte2 n = omega (arith, and_shifted n 0xff, and_byte (n / 256))

byte3 : (n : ℕ) → bit_and n 0xff0000 ≡ n / 65536 % 256 * 65536
byte3 n =
    let e : n / 256 / 256 ≡ n / 65536 = omega arith in
    and_shifted n 0xff00 ∙ (ap (λ x. x * 256) (byte2 (n / 256)) ∙ rw e (omega arith))

byte4 : (n : ℕ) → bit_and n 0xff000000 ≡ n / 16777216 % 256 * 16777216
byte4 n =
    let e : n / 256 / 65536 ≡ n / 16777216 = omega arith in
    and_shifted n 0xff0000 ∙ (ap (λ x. x * 256) (byte3 (n / 256)) ∙ rw e (omega arith))

num2ip-dotted :
    (n : ℕ)
    → num2ip n
      ≡ dotted
          (bit_and n 0xff000000 / 2 ^ 24)
          (bit_and n 0xff0000 / 2 ^ 16)
          (bit_and n 0xff00 / 2 ^ 8)
          (bit_and n 0xff)
unfolding num2ip
num2ip-dotted n = refl

module _ (a b c d : ℕ) (ha : a < 256) (hb : b < 256) (hc : c < 256) (hd : d < 256) where
  or_parts :
      bit_or (bit_or (bit_or (shift_left a 24) (shift_left b 16)) (shift_left c 8)) d
      ≡ packed a b c d
  or_parts =
      let ea : shift_left a 24 ≡ a * 256 * 256 * 256 = omega (arith, ha) in
      let eb : shift_left b 16 ≡ b * 256 * 256 = omega (arith, hb) in
      let ec : shift_left c 8 ≡ c * 256 = omega (arith, hc) in
      let ab = or_byte a b hb in
      let abc = or_byte (a * 256 + b) c hc in
      rw (ea, eb, ec)
        (rw (or_shifted (a * 256 * 256) (b * 256), or_shifted (a * 256) b, ab)
          (rw (or_shifted ((a * 256 + b) * 256) c, abc) (or_byte ((a * 256 + b) * 256 + c) d hd)))

  pub ip2num-dotted : ip2num (dotted a b c d) ≡ packed a b c d
  unfolding ip2num
  ip2num-dotted =
      rw
        (
          split-dotted a b c d,
          parse_uint-format_uint a (omega (arith, ha)),
          parse_uint-format_uint b (omega (arith, hb)),
          parse_uint-format_uint c (omega (arith, hc)),
          parse_uint-format_uint d (omega (arith, hd)),
        )
        or_parts

  num2ip-packed : num2ip (packed a b c d) ≡ dotted a b c d
  num2ip-packed =
      let n = packed a b c d in
      let first : bit_and n 0xff000000 / 2 ^ 24 ≡ a = omega (arith, byte4 n, ha, hb, hc, hd) in
      let second : bit_and n 0xff0000 / 2 ^ 16 ≡ b = omega (arith, byte3 n, hb, hc, hd) in
      let third : bit_and n 0xff00 / 2 ^ 8 ≡ c = omega (arith, byte2 n, hc, hd) in
      let fourth : bit_and n 0xff ≡ d = omega (arith, and_byte n, hd) in
      num2ip-dotted n ∙ λ i. dotted (first i) (second i) (third i) (fourth i)

  -- `Num2IP` gives back the address that `IP2Num` was given.
  pub num2ip-ip2num : num2ip (ip2num (dotted a b c d)) ≡ dotted a b c d
  num2ip-ip2num = ap num2ip ip2num-dotted ∙ num2ip-packed

  -- A trace id that the gateway at this address gives out, for an id of the generator below
  -- 2 ^ 63 and a port without '-', is parsed as the time of the id, the address and the port.
  pub parse_trace_id-gen_trace_id :
      (gen : ℕ → ℕ) (time_of : ℤ → ℤ) (port : Text) (n : ℕ)
      → gen n < 2 ^ 63
      → Without b'-' port
      → parse_trace_id time_of (gen_trace_id gen (service_id (dotted a b c d) port) n)
        ≡ bus_id (record {
          create_time = time_of (pos (gen n));
          gateway_ip = dotted a b c d;
          gateway_port = port;
        })
  unfolding parse_trace_id gen_trace_id service_id
  parse_trace_id-gen_trace_id gen time_of port n small clean =
      rw
        (
          split-append b'-' (format_uint (gen n)) _ (uint-Without b'-' (gen n) (omega arith)),
          split-append b'-' (format_uint (ip2num (dotted a b c d))) port
              (uint-Without b'-' (ip2num (dotted a b c d)) (omega arith)),
          split_single b'-' port clean,
          id_read gen n small,
          parse_uint-format_uint (ip2num (dotted a b c d))
              (omega (arith, ip2num-dotted, ha, hb, hc, hd)),
          num2ip-ip2num,
        )
        refl
