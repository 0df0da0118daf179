-- ===== src/Redis/Healthy.antt =====
-- What Redis documents of its list commands, as laws of a server that answers every request: a view
-- of each key's list, left end first, and what each command answers and does to the lists.
use pepperbus.Base.{
  ℕ, ◌+◌, List, [], ◌∷◌, ◌++◌, map, reverse, Option, none, some, ◌≡◌, if◌then◌else◌, length, unsnoc,
  take, false,
}
use pepperbus.Base.Int.{pos}
use pepperbus.Base.Text.{Text, text_eq}
use pepperbus.Redis.Wire.{Command, Reply, Server, integer, bulk, nil, array, ok}

-- The answer of RPOP, and the list that it leaves.
abbrev pub popped : Option (List Text × Text) → Reply
popped none = nil
popped (some (rest, v)) = bulk v

abbrev pub shortened : Option (List Text × Text) → List Text
shortened none = []
shortened (some (rest, v)) = rest

-- What RPOPLPUSH puts in front of the destination.
abbrev pub moved : Option (List Text × Text) → List Text
moved none = []
moved (some (rest, v)) = v ∷ []

abbrev pub present : List Text → ℕ
present [] = 0
present (x ∷ xs) = 1

pub record Healthy (server : Server) : Type 0 where
  pub items : server.Store → Text → List Text
  pub lpush_reply :
      (k : Text) (vs : List Text) (s : server.Store)
      → (server.call_n (Command.lpush k vs) s).0
        ≡ ok (integer (pos (length vs + length (items s k))))
  pub lpush_items :
      (k : Text) (vs : List Text) (s : server.Store) (j : Text)
      → items (server.call_n (Command.lpush k vs) s).1 j
        ≡ (if text_eq k j then reverse vs ++ items s k else items s j)
  pub rpop_reply :
      (k : Text) (s : server.Store)
      → (server.call_n (Command.rpop k) s).0 ≡ ok (popped (unsnoc (items s k)))
  pub rpop_items :
      (k : Text) (s : server.Store) (j : Text)
      → items (server.call_n (Command.rpop k) s).1 j
        ≡ (if text_eq k j then shortened (unsnoc (items s k)) else items s j)
  pub rpoplpush_reply :
      (k d : Text) (s : server.Store)
      → (server.call_n (Command.rpoplpush k d) s).0 ≡ ok (popped (unsnoc (items s k)))
  -- For two different keys.
  pub rpoplpush_items :
      (k d : Text) (s : server.Store) (j : Text)
      → text_eq k d ≡ false
      → items (server.call_n (Command.rpoplpush k d) s).1 j ≡ (
          if text_eq k j
          then shortened (unsnoc (items s k))
          else if text_eq d j
          then moved (unsnoc (items s k)) ++ items s d
          else items s j)
  pub llen_reply :
      (k : Text) (s : server.Store)
      → (server.call_n (Command.llen k) s).0 ≡ ok (integer (pos (length (items s k))))
  pub llen_items :
      (k : Text) (s : server.Store) (j : Text)
      → items (server.call_n (Command.llen k) s).1 j ≡ items s j
  pub del_reply :
      (k : Text) (s : server.Store)
      → (server.call_n (Command.del k) s).0 ≡ ok (integer (pos (present (items s k))))
  pub del_items :
      (k : Text) (s : server.Store) (j : Text)
      → items (server.call_n (Command.del k) s).1 j ≡ (if text_eq k j then [] else items s j)
  -- From the start of the list.
  pub lrange_reply :
      (k : Text) (stop : ℕ) (s : server.Store)
      → (server.call_n (Command.lrange k 0 stop) s).0
        ≡ ok (array (map some (take (stop + 1) (items s k))))
  pub lrange_items :
      (k : Text) (stop : ℕ) (s : server.Store) (j : Text)
      → items (server.call_n (Command.lrange k 0 stop) s).1 j ≡ items s j
  pub ltrim_items :
      (k : Text) (stop : ℕ) (s : server.Store) (j : Text)
      → items (server.call_n (Command.ltrim k 0 stop) s).1 j
        ≡ (if text_eq k j then take (stop + 1) (items s k) else items s j)
