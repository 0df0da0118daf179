-- ===== src/Redis/Commands/Sorted.antt =====
-- utility/msgRedis/commands.go: sorted sets.
use pepperbus.Base.{
  ℕ, List, [], ◌∷◌, ◌++◌, map, length, take, ltb, Bool, ◌&&◌, Option, none, some, if◌then◌else◌,
}
use pepperbus.Base.Int.{ℤ, pos, negsuc}
use pepperbus.Base.Text.{Text, codes}
use pepperbus.Base.Map.{Map}
use pepperbus.Redis.Resp.{Arg, arg_int, arg_text, arg_printed, Values}
use pepperbus.Redis.Commands.{
  Conn, bad_args, Out, out, panics, reply_with, minus_one, int_reply, rank_reply, bytes_reply,
  bulk_reply, array_reply, array_unchecked, members, scan_reply, scan_args, texts,
}

-- The entries of the map of ZADD, in the order of its iteration: the score first.
unfoldable pub scores_of : Map Arg → List Arg
scores_of [] = []
scores_of ((k, v) ∷ kv) = v ∷ arg_text k ∷ scores_of kv

-- The arguments of a ZINTERSTORE or a ZUNIONSTORE, or its error; `panics` for a negative number.
abbrev aggregated : Bool → Text → List Arg
aggregated aggregate ag = if aggregate then arg_text (codes "AGGREGATE") ∷ arg_text ag ∷ [] else []

abbrev weighted : ℕ → Bool → List ℤ → List Arg
weighted n weights ws = if weights then arg_text (codes "WEIGHTS") ∷ map arg_int (take n ws) else []

abbrev store_args : Text → ℤ → List Text → Bool → List ℤ → Bool → Text → Out (List Arg)
store_args destination (negsuc n) keys weights ws aggregate ag = panics
store_args destination (pos n) keys weights ws aggregate ag =
    if ltb (length keys) n
    then out [] (some bad_args)
    else if weights && ltb (length ws) n
    then out [] (some bad_args)
    else out
        (arg_text destination
          ∷ arg_int (pos n)
          ∷ (texts (take n keys) ++ (weighted n weights ws ++ aggregated aggregate ag)))
        none

-- The options of a range by score.
abbrev range_args : Bool → Bool → Arg → Arg → List Arg
range_args with_scores limit offset count =
    let last = if limit then arg_text (codes "LIMIT") ∷ offset ∷ count ∷ [] else [] in
    if with_scores then arg_text (codes "WITHSCORES") ∷ last else last

module _ (conn : Conn) where
  open conn use {Store, call, call_n}

  -- `ZADDSpec`.
  unfoldable pub zadd_spec : Text → Text → Text → Store → Out ℤ × Store
  zadd_spec key score value s =
      reply_with int_reply
        (call_n (codes "ZADD") (arg_text key ∷ arg_text score ∷ arg_text value ∷ []) s)

  -- `ZADD`.
  unfoldable pub zadd : Text → Map Arg → Store → Out ℤ × Store
  zadd key key_score s =
      reply_with int_reply (call_n (codes "ZADD") (arg_text key ∷ scores_of key_score) s)

  -- `ZCARD`.
  unfoldable pub zcard : Text → Store → Out ℤ × Store
  zcard key s = reply_with int_reply (call_n (codes "ZCARD") (arg_text key ∷ []) s)

  -- `ZCOUNT`.
  unfoldable pub zcount : Text → Text → Text → Store → Out ℤ × Store
  zcount key low high s =
      reply_with int_reply
        (call_n (codes "ZCOUNT") (arg_text key ∷ arg_printed low ∷ arg_printed high ∷ []) s)

  -- `ZINCRBY`.
  unfoldable pub zincrby : Text → Arg → Text → Store → Out (Option Text) × Store
  zincrby key increment member s =
      reply_with bytes_reply
        (call_n (codes "ZINCRBY") (arg_text key ∷ increment ∷ arg_text member ∷ []) s)

  abbrev store_with : Text → Out (List Arg) → Store → Out ℤ × Store
  store_with command panics s = (panics, s)
  store_with command (out args (some e)) s = (out minus_one (some e), s)
  store_with command (out args none) s = reply_with int_reply (call_n command args s)

  -- `ZINTERSTORE`.
  unfoldable pub zinterstore :
      Text → ℤ → List Text → Bool → List ℤ → Bool → Text → Store → Out ℤ × Store
  zinterstore destination numkeys keys weights ws aggregate ag s =
      store_with (codes "ZINTERSTORE") (store_args destination numkeys keys weights ws aggregate ag)
        s

  -- `ZRANGE`.
  unfoldable pub zrange : Text → ℤ → ℤ → Bool → Store → Out Values × Store
  zrange key start stop with_scores s =
      if with_scores
      then reply_with array_unchecked (
          call_n (codes "ZRANGE")
            (arg_text key ∷ arg_int start ∷ arg_int stop ∷ arg_text (codes "WITHSCORES") ∷ []) s)
      else reply_with array_reply
          (call_n (codes "ZRANGE") (arg_text key ∷ arg_int start ∷ arg_int stop ∷ []) s)

  -- `ZRANGEBYSCORE`.
  unfoldable pub zrangebyscore :
      Text → Arg → Arg → Bool → Bool → Arg → Arg → Store → Out Values × Store
  zrangebyscore key low high with_scores limit offset count s = reply_with array_reply (
      call_n (codes "ZRANGEBYSCORE")
        (arg_text key ∷ low ∷ high ∷ range_args with_scores limit offset count) s)

  -- `ZRANK`.
  unfoldable pub zrank : Text → Text → Store → Out ℤ × Store
  zrank key member s =
      reply_with rank_reply (call_n (codes "ZRANK") (arg_text key ∷ arg_text member ∷ []) s)

  -- `ZREM`.
  unfoldable pub zrem : Text → List Text → Store → Out ℤ × Store
  zrem key members s = reply_with int_reply (call_n (codes "ZREM") (arg_text key ∷ texts members) s)

  -- `ZREMRANGEBYRANK`.
  unfoldable pub zremrangebyrank : Text → Arg → Arg → Store → Out ℤ × Store
  zremrangebyrank key low high s =
      reply_with int_reply (call_n (codes "ZREMRANGEBYRANK") (arg_text key ∷ low ∷ high ∷ []) s)

  -- `ZREMRANGEBYSCORE`.
  unfoldable pub zremrangebyscore : Text → Arg → Arg → Store → Out ℤ × Store
  zremrangebyscore key low high s =
      reply_with int_reply (call_n (codes "ZREMRANGEBYSCORE") (arg_text key ∷ low ∷ high ∷ []) s)

  -- `ZREVRANGE`.
  unfoldable pub zrevrange : Text → ℤ → ℤ → Bool → Store → Out Values × Store
  zrevrange key start stop with_scores s =
      if with_scores
      then reply_with array_unchecked (
          call_n (codes "ZREVRANGE")
            (arg_text key ∷ arg_int start ∷ arg_int stop ∷ arg_text (codes "WITHSCORES") ∷ []) s)
      else reply_with array_reply
          (call_n (codes "ZREVRANGE") (arg_text key ∷ arg_int start ∷ arg_int stop ∷ []) s)

  -- `ZREVRANGEBYSCORE`.
  unfoldable pub zrevrangebyscore :
      Text → Arg → Arg → Bool → Bool → Arg → Arg → Store → Out Values × Store
  zrevrangebyscore key high low with_scores limit offset count s = reply_with array_reply (
      call_n (codes "ZREVRANGEBYSCORE")
        (arg_text key ∷ high ∷ low ∷ range_args with_scores limit offset count) s)

  -- `ZREVRANK`.
  unfoldable pub zrevrank : Text → Text → Store → Out ℤ × Store
  zrevrank key member s =
      reply_with rank_reply (call_n (codes "ZREVRANK") (arg_text key ∷ arg_text member ∷ []) s)

  -- `ZSCORE`.
  unfoldable pub zscore : Text → Text → Store → Out (Option Text) × Store
  zscore key member s =
      reply_with bulk_reply (call_n (codes "ZSCORE") (arg_text key ∷ arg_text member ∷ []) s)

  -- `ZUNIONSTORE`.
  unfoldable pub zunionstore :
      Text → ℤ → List Text → Bool → List ℤ → Bool → Text → Store → Out ℤ × Store
  zunionstore destination numkeys keys weights ws aggregate ag s =
      store_with (codes "ZUNIONSTORE") (store_args destination numkeys keys weights ws aggregate ag)
        s

  -- `ZSCAN`.
  unfoldable pub zscan : Text → ℤ → Bool → Text → Bool → ℤ → Store → Out (ℤ × Values) × Store
  zscan key cursor match pattern is_count count s = reply_with scan_reply (
      call_n (codes "ZSCAN")
        (arg_text key ∷ arg_int cursor ∷ scan_args match pattern is_count count) s)
