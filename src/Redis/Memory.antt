-- ===== src/Redis/Memory.antt =====
-- A server in memory that meets the laws of `Healthy`: the lists are a function of the key.
use pepperbus.Base.{
  ◌+◌, List, [], ◌++◌, map, reverse, some, ◌≡◌, refl, if◌then◌else◌, length, unsnoc, take, drop,
  false, arith,
}
use pepperbus.Base.Int.{pos}
use pepperbus.Base.Text.{Text, text_eq, text_eq_iff, codes}
use pepperbus.Redis.Wire.{Command, Reply, Result, Server, integer, bulk, array, ok}
use pepperbus.Redis.Healthy.{Healthy, popped, shortened, moved, present}

abbrev pub Lists : Type 0
Lists = Text → List Text

-- The lists with one key's list replaced.
abbrev pub put : Text → List Text → Lists → Lists
put k xs s j = if text_eq k j then xs else s j

abbrev pub perform : Command → Lists → Result Reply × Lists
perform (Command.lpush k vs) s =
    (ok (integer (pos (length vs + length (s k)))), put k (reverse vs ++ s k) s)
perform (Command.rpop k) s = (ok (popped (unsnoc (s k))), put k (shortened (unsnoc (s k))) s)
perform (Command.rpoplpush k d) s = (
  ok (popped (unsnoc (s k))),
  let s' = put k (shortened (unsnoc (s k))) s in put d (moved (unsnoc (s k)) ++ s' d) s',
)
perform (Command.llen k) s = (ok (integer (pos (length (s k)))), s)
perform (Command.del k) s = (ok (integer (pos (present (s k)))), put k [] s)
perform (Command.lrange k start stop) s =
    (ok (array (map some (drop start (take (stop + 1) (s k))))), s)
perform (Command.ltrim k start stop) s =
    (ok (bulk (codes "OK")), put k (drop start (take (stop + 1) (s k))) s)

abbrev pub memory : Server
memory = record { Store = Lists; call_n = perform }

pub rpoplpush_law :
    (k d : Text) (s : Lists) (j : Text)
    → text_eq k d ≡ false
    → (perform (Command.rpoplpush k d) s).1 j ≡ (
        if text_eq k j
        then shortened (unsnoc (s k))
        else if text_eq d j
        then moved (unsnoc (s k)) ++ s d
        else s j)
rpoplpush_law k d s j h = ground (arith, text_eq_iff k d, text_eq_iff k j, text_eq_iff d j)

abbrev pub memory_healthy : Healthy memory
memory_healthy = record {
  items = λ s. s;
  lpush_reply = λ k vs s. refl;
  lpush_items = λ k vs s j. refl;
  rpop_reply = λ k s. refl;
  rpop_items = λ k s j. refl;
  rpoplpush_reply = λ k d s. refl;
  rpoplpush_items = rpoplpush_law;
  llen_reply = λ k s. refl;
  llen_items = λ k s j. refl;
  del_reply = λ k s. refl;
  del_items = λ k s j. refl;
  lrange_reply = λ k stop s. refl;
  lrange_items = λ k stop s j. refl;
  ltrim_items = λ k stop s j. refl;
}
