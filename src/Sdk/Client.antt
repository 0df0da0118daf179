-- ===== src/Sdk/Client.antt =====
-- sdk/golang/client.go: a client pushes jobs, over the Redis client. The printing of contents as
-- JSON is a parameter.
pub mod Delivers
use pepperbus.Base.{List, [], ◌∷◌, ◌++◌, Bool, Option, none, some}
use pepperbus.Base.Int.{ℤ}
use pepperbus.Base.Text.{Text, codes}
use pepperbus.Redis.Commands.{Conn, Failure, Out, out, panics}
use pepperbus.Redis.Commands.Keys
use pepperbus.Redis.Commands.Lists

-- The contents: a string, bytes, or another value.
pub data Content (V : Type 0) : Type 0 where
  string bytes : Text → Content V
  other : V → Content V

-- `json.Marshal`.
pub data Marshalled : Type 0 where
  json not_json : Text → Marshalled

-- The texts that are sent, or the error of a content.
pub data Collected : Type 0 where
  collected : List Text → Collected
  rejected : Text → Collected

-- What `AddJobs` returns.
pub data Added : Type 0 where
  added : Added
  not_encoded : Text → Added
  not_added : Failure → Added
  panicked : Added

abbrev before_all : Text → Collected → Collected
before_all c (collected texts) = collected (c ∷ texts)
before_all c (rejected e) = rejected e

module _ {V : Type 0} (marshal : V → Marshalled) where
  abbrev add_content : Marshalled → Collected → Collected
  add_content (json c) rest = before_all c rest
  add_content (not_json e) rest = rejected e

  -- The loop over the contents, up to the first that is no JSON.
  unfoldable pub collect : List (Content V) → Collected
  collect [] = collected []
  collect (string c ∷ contents) = before_all c (collect contents)
  collect (bytes c ∷ contents) = before_all c (collect contents)
  collect (other v ∷ contents) = add_content (marshal v) (collect contents)

-- The commands go over connections of the client's pool.
module _ (conn : Conn) where
  open conn use {Store}

  -- `Auth`.
  unfoldable pub authenticate : Text → Text → Store → Out Bool × Store
  unfolding Keys.auth
  authenticate queue password s = Keys.auth conn (queue ++ (codes ":" ++ password)) s

  abbrev after_push : Out ℤ × Store → Added × Store
  after_push (out n none, s) = (added, s)
  after_push (out n (some e), s) = (not_added e, s)
  after_push (panics, s) = (panicked, s)

  abbrev after_auth : Text → List Text → Out Bool × Store → Added × Store
  after_auth queue texts (out b none, s) =
      after_push (Lists.lpush conn (queue ++ codes "/default") texts s)
  after_auth queue texts (out b (some e), s) = (not_added e, s)
  after_auth queue texts (panics, s) = (panicked, s)

  abbrev add_texts : Text → Text → Collected → Store → Added × Store
  add_texts queue password (collected texts) s =
      after_auth queue texts (authenticate queue password s)
  add_texts queue password (rejected e) s = (not_encoded e, s)

  -- `AddJobs`.
  unfoldable pub add_jobs :
      {V : Type 0} → (V → Marshalled) → Text → Text → List (Content V) → Store → Added × Store
  unfolding collect authenticate Lists.lpush
  add_jobs marshal queue password contents s = add_texts queue password (collect marshal contents) s
