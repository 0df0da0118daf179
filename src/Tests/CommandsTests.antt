-- ===== src/Tests/CommandsTests.antt =====
-- The theorems of the client's commands and of its pipelines at concrete inputs.
use pepperbus.Base.{
  ◌≡◌, refl, ap, ◌∙◌, List, [], ◌∷◌, ◌++◌, Option, none, some, arith, if◌then◌else◌,
}
use pepperbus.Base.Int.{pos}
use pepperbus.Base.Text.{Text, codes, text_eq, text_eq_refl}
use pepperbus.Base.Map.{Map, lookup, insert, lookup-insert, Distinct, insert-Distinct}
use pepperbus.Redis.Call.{Outcome, answer, error}
use pepperbus.Redis.Resp.{Arg, arg_int, arg_text, arg_bytes, v_int, v_bytes, v_array}
use pepperbus.Redis.Resp.RoundTrip.{depth, Fits}
use pepperbus.Redis.Commands.{Conn, out, fields_of}
use pepperbus.Redis.Commands.Hashes.{hmset, hgetallmap}
use pepperbus.Redis.Commands.Hashes.ReadMap.{
  insert_all, flat, printed, HashLaws, hgetallmap-hmset, lookup-insert_all, found_again,
}
use pepperbus.Redis.Pipeline.{Pipe, pipe_exec, replies}
use pepperbus.Redis.Pipeline.Replies.{
  send_all, requests, Served, served, refused, bytes_of, values_of, last_error, pipe_exec_lem,
}

-- A server that keeps hashes.
abbrev fields_at : Option (Map Text) → Map Text
fields_at none = []
fields_at (some m) = insert_all m []

abbrev hash_at : Map (Map Text) → Text → Map Text
hash_at s key = fields_at (lookup key s)

unfoldable unpair : List Arg → Map Text
unpair [] = []
unpair (a ∷ []) = []
unpair (a ∷ b ∷ args) = (arg_bytes a, arg_bytes b) ∷ unpair args

abbrev hash_call : Text → List Arg → Map (Map Text) → Outcome × Map (Map Text)
hash_call name [] s = (error (codes "ERR wrong number of arguments"), s)
hash_call name (key ∷ args) s =
    if text_eq name (codes "HGETALL")
    then (answer (v_array (flat (hash_at s (arg_bytes key)))), s)
    else if text_eq name (codes "HMSET")
    then (
      answer (v_bytes (codes "OK")),
      insert (arg_bytes key) (insert_all (unpair args) (hash_at s (arg_bytes key))) s,
    )
    else (error (codes "ERR unknown command"), s)

abbrev hashes : Conn
hashes = record { Store = Map (Map Text); call = hash_call; call_n = hash_call }

insert_all-Distinct : (kv m : Map Text) → Distinct m → Distinct (insert_all kv m)
unfolding insert_all
insert_all-Distinct [] m d = d
insert_all-Distinct ((k, v) ∷ kv) m d =
    insert_all-Distinct kv (insert k v m) (insert-Distinct k v m d)

fields_at-Distinct : (o : Option (Map Text)) → Distinct (fields_at o)
fields_at-Distinct none = tt
fields_at-Distinct (some m) = insert_all-Distinct m [] tt

unpair-fields_of : (kv : Map Arg) → unpair (fields_of kv) ≡ printed kv
unfolding unpair fields_of arg_bytes
unpair-fields_of [] = refl
unpair-fields_of ((k, v) ∷ kv) = ap (λ m. (k, arg_bytes v) ∷ m) (unpair-fields_of kv)

again : (j : Text) (m : Map Text) → Distinct m → lookup j (insert_all m []) ≡ lookup j m
again j m d = lookup-insert_all j m [] d ∙ (unfold lookup in found_again (lookup j m))

hash_reads :
    (key : Text) (s : Map (Map Text))
    → (hash_call (codes "HGETALL") (arg_text key ∷ []) s).0
      ≡ answer (v_array (flat (hash_at s key)))
unfolding text_eq arg_bytes
hash_reads key s = refl

hash_writes :
    (key : Text) (kv : Map Arg) (s : Map (Map Text)) (j : Text)
    → lookup j (hash_at (hash_call (codes "HMSET") (arg_text key ∷ fields_of kv) s).1 key)
      ≡ lookup j (insert_all (printed kv) (hash_at s key))
unfolding text_eq arg_bytes
hash_writes key kv s j =
    let m = insert_all (printed kv) (hash_at s key) in
    rw (unpair-fields_of kv, lookup-insert key key m s, text_eq_refl key)
      (again j m (insert_all-Distinct (printed kv) _ (fields_at-Distinct (lookup key s))))

abbrev laws : HashLaws hashes
laws = record {
  fields = hash_at;
  distinct = λ s key. fields_at-Distinct (lookup key s);
  hgetall_reply = hash_reads;
  hmset_fields = hash_writes;
}

-- The hash "h" has a field "a", and gets fields "b" and "a".
abbrev before : Map (Map Text)
before = (codes "h", (codes "a", codes "old") ∷ []) ∷ []

abbrev news : Map Arg
news = (codes "a", arg_int (pos 7)) ∷ []

hgetallmap-hmset_example :
    let s' = (hmset hashes (codes "h") ((codes "b", arg_text (codes "x")) ∷ news) before).1 in
    (m : Map Text) × ((hgetallmap hashes 3 (codes "h") s').0 ≡ some (out m none))
    × ((j : Text)
        → lookup j m
          ≡ lookup j (
              insert_all
                (printed ((codes "b", arg_text (codes "x")) ∷ news))
                (hash_at before (codes "h"))))
unfolding hmset fields_of insert lookup text_eq arg_bytes insert_all unpair
hgetallmap-hmset_example =
    hgetallmap-hmset hashes laws 3 (codes "h") (codes "b") (arg_text (codes "x")) news before
      (omega arith)

-- Three commands, the second of which is refused.
abbrev commands : List (Text × List Arg)
commands =
    (codes "INCR", arg_text (codes "n") ∷ [])
    ∷ (codes "LPOP", arg_text (codes "n") ∷ [])
    ∷ (codes "GET", arg_text (codes "n") ∷ [])
    ∷ []

abbrev reactions : List Served
reactions = served (v_int (pos 7)) ∷ refused (codes "ERR") ∷ served (v_bytes (codes "7")) ∷ []

pipe_exec_lem_example :
    let start : Pipe = record { pipe_count = 0; written = [] } in
    let p = send_all commands start in
    (p.written ≡ [] ++ requests commands)
    × (pipe_exec 2 none (bytes_of reactions ++ codes "+") p ≡ (
      replies (some (values_of reactions, last_error none reactions, codes "+")),
      record p { pipe_count = 0 },
    ))
pipe_exec_lem_example = pipe_exec_lem 1 commands reactions [] (codes "+") refl (
  (unfold depth in omega arith, unfold Fits in (omega arith, omega arith)),
  ((cc, (cc, (cc, tt))), ((unfold depth in omega arith, unfold Fits in omega arith), tt)),
)
