-- ===== src/Tests/Sample.antt =====
-- A codec that writes a job as numbers, and jobs and configurations for the tests.
use pepperbus.Base.{
  ℕ, zero, suc, ◌≡◌, refl, ap, ◌∙◌, [], ◌∷◌, ◌++◌, Bool, true, false, some, length, take, drop,
}
use pepperbus.Base.Int.{ℤ, pos, negsuc}
use pepperbus.Base.Text.{Text, codes}
use pepperbus.Job.{Job, Codec, RoundTrip}
use pepperbus.Redis.Memory.{Lists}

abbrev flag : Bool → ℕ
flag false = 0
flag true = 1

abbrev unflag : ℕ → Bool
unflag zero = false
unflag (suc n) = true

abbrev sign : ℤ → ℕ
sign (pos n) = 0
sign (negsuc n) = 1

abbrev size : ℤ → ℕ
size (pos n) = n
size (negsuc n) = n

abbrev int : ℕ → ℕ → ℤ
int zero n = pos n
int (suc s) n = negsuc n

abbrev pub write : Job → Text
write j =
    sign j.retry
    ∷ size j.retry
    ∷ sign j.retry_times
    ∷ size j.retry_times
    ∷ sign j.retry_time
    ∷ size j.retry_time
    ∷ sign j.retry_residue_time
    ∷ size j.retry_residue_time
    ∷ flag j.is_retry
    ∷ flag j.begin_retry
    ∷ length j.id
    ∷ length j.in_trace_id
    ∷ (j.id ++ (j.in_trace_id ++ j.content))

abbrev pub blank : Job
blank = record {
  id = [];
  in_trace_id = [];
  content = [];
  retry = pos 0;
  retry_times = pos 0;
  retry_time = pos 0;
  is_retry = false;
  begin_retry = false;
  retry_residue_time = pos 0;
}

abbrev pub read : Text → Job
read (a ∷ a' ∷ b ∷ b' ∷ c ∷ c' ∷ d ∷ d' ∷ e ∷ f ∷ n ∷ m ∷ rest) = record {
  id = take n rest;
  in_trace_id = take m (drop n rest);
  content = drop m (drop n rest);
  retry = int a a';
  retry_times = int b b';
  retry_time = int c c';
  is_retry = unflag e;
  begin_retry = unflag f;
  retry_residue_time = int d d';
}
read _ = blank

int_lem : (z : ℤ) → int (sign z) (size z) ≡ z
int_lem (pos n) = refl
int_lem (negsuc n) = refl

unflag-flag : (b : Bool) → unflag (flag b) ≡ b
unflag-flag true = refl
unflag-flag false = refl

take-append : (xs ys : Text) → take (length xs) (xs ++ ys) ≡ xs
take-append [] ys = refl
take-append (x ∷ xs) ys = ap (◌∷◌ x) (take-append xs ys)

drop-append : (xs ys : Text) → drop (length xs) (xs ++ ys) ≡ ys
drop-append [] ys = refl
drop-append (x ∷ xs) ys = drop-append xs ys

read-write : (j : Job) → read (write j) ≡ j
read-write j = λ i. record {
  id = take-append j.id (j.in_trace_id ++ j.content) i;
  in_trace_id =
      (ap (take (length j.in_trace_id)) (drop-append j.id (j.in_trace_id ++ j.content))
          ∙ take-append j.in_trace_id j.content)
        i;
  content =
      (ap (drop (length j.in_trace_id)) (drop-append j.id (j.in_trace_id ++ j.content))
          ∙ drop-append j.in_trace_id j.content)
        i;
  retry = int_lem j.retry i;
  retry_times = int_lem j.retry_times i;
  retry_time = int_lem j.retry_time i;
  is_retry = unflag-flag j.is_retry i;
  begin_retry = unflag-flag j.begin_retry i;
  retry_residue_time = int_lem j.retry_residue_time i;
}

abbrev pub plain : Codec
plain = record { encode = λ j. some (write j); decode = read }

abbrev pub Any : Job → Type 0
Any j = Unit

pub plain_trip : RoundTrip plain Any
plain_trip = record { decode-encode = λ j _. (write j, refl, read-write j) }

abbrev pub job1 : Job
job1 = record blank { id = codes "1"; content = codes "hello" }

abbrev pub job2 : Job
job2 = record blank { id = codes "2"; content = codes "bye" }

abbrev pub queue : Text
queue = codes "q"

abbrev pub topic : Text
topic = codes "t"

-- No list holds anything.
abbrev pub nothing : Lists
nothing k = []
