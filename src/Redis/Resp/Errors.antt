-- ===== src/Redis/Resp/Errors.antt =====
-- conn.go, `parseArray`: an error inside an array.
use pepperbus.Base.{
  ℕ, zero, suc, ◌*◌, ◌^◌, ◌<◌, ◌≡◌, refl, ap, ◌∙◌, ◌∷◌, ◌++◌, append_assoc, arith, ◌≤◌,
}
use pepperbus.Base.Text.{Text}
use pepperbus.Redis.Resp.{
  crlf, write_len, Value, Values, none_left, and_then, ReadError, common, Got, got, failed,
  read_values, dispatch, of_line, read_response,
}
use pepperbus.Redis.Resp.Encode.{read_line_lem, NoFeed}
use pepperbus.Redis.Resp.RoundTrip.{
  encode, encode_all, count, depth, depth_all, Fits, FitsAll, larger_lt, array_lem,
  read_response-encode,
}

-- An error as the server writes it.
abbrev pub error_reply : Text → Text
error_reply message = b'-' ∷ (message ++ crlf)

pub read_error :
    (fuel : ℕ) (message rest : Text)
    → NoFeed message
    → read_response (suc fuel) (error_reply message ++ rest) ≡ failed (common message) rest
unfolding read_response
read_error fuel message rest h =
    ap (λ w. read_response (suc fuel) (b'-' ∷ w)) (append_assoc message crlf rest)
    ∙ (ap (of_line (read_response fuel)) (read_line_lem b'-' message rest (cc, h))
        ∙ (unfold dispatch in refl))

fail_now :
    (read : Text → Got Value) (n : ℕ) (s rest : Text) (e : ReadError)
    → read s ≡ failed e rest
    → read_values read (suc n) s ≡ failed e rest
unfolding read_values
fail_now read n s rest e first = rw (first, read_values) refl

fail_later :
    (read : Text → Got Value) (n : ℕ) (s rest rest' : Text) (v : Value) (e : ReadError)
    → read s ≡ got v rest
    → read_values read n rest ≡ failed e rest'
    → read_values read (suc n) s ≡ failed e rest'
unfolding read_values
fail_later read n s rest rest' v e first others = rw (first, read_values) (rw others refl)

-- The values before the error are read, and then the error.
values_error :
    (f n : ℕ) (vs : Values) (message rest : Text)
    → count vs < n
    → depth_all vs < suc f
    → FitsAll vs
    → NoFeed message
    → read_values (read_response (suc f)) n (encode_all vs ++ (error_reply message ++ rest))
      ≡ failed (common message) rest
unfolding count encode depth Fits
values_error f zero vs message rest h d fits feedless = absurd (omega (arith, h))
values_error f (suc n) none_left message rest h d fits feedless =
    fail_now (read_response (suc f)) n (error_reply message ++ rest) rest (common message)
      (read_error f message rest feedless)
values_error f (suc n) (and_then v vs) message rest h d (fit, fits) feedless =
    let (hv, hvs) = larger_lt (depth v) (depth_all vs) (suc f) d in
    let tail = encode_all vs ++ (error_reply message ++ rest) in
    ap (read_values (read_response (suc f)) (suc n))
      (append_assoc (encode v) (encode_all vs) (error_reply message ++ rest))
    ∙ fail_later (read_response (suc f)) n (encode v ++ tail) tail rest v (common message)
        (read_response-encode (suc f) v tail hv fit)
        (values_error f n vs message rest (omega (arith, h)) hvs fits feedless)

-- An error reply among the elements of an array becomes the error of the whole reply, and whatever
-- stands behind it in the array is left unread: it is what the next command reads.
pub array_error_leaves :
    (f n : ℕ) (vs : Values) (message rest : Text)
    → count vs < n
    → n * 16 ≤ 2 ^ 48
    → depth_all vs < suc f
    → FitsAll vs
    → NoFeed message
    → read_response
        (suc (suc f))
        ((write_len b'*' n ++ (encode_all vs ++ error_reply message)) ++ rest)
      ≡ failed (common message) rest
array_error_leaves f n vs message rest h few d fits feedless =
    array_lem (suc f) n (encode_all vs ++ error_reply message) rest (failed (common message) rest)
      few
      (ap (read_values (read_response (suc f)) n)
          (append_assoc (encode_all vs) (error_reply message) rest)
        ∙ values_error f n vs message rest h d fits feedless)
