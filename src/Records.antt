-- ===== src/Records.antt =====
-- task_debug.go and error_collection.go: the records of pushed tasks and of failed jobs, which are
-- kept in Redis lists as fields joined by ",,,,". The time, the host and the printed batch are
-- arguments.
pub mod Trim
pub mod ReadBack
use pepperbus.Base.{
  ℕ, zero, suc, ◌-◌, List, [], ◌∷◌, ◌++◌, Bool, true, false, Option, none, some, length,
  if◌then◌else◌,
}
use pepperbus.Base.Int.{ℤ, pos, pos_part, leb_ℤ}
use pepperbus.Base.Text.{Text, codes, has_prefix, add_front}
use pepperbus.Redis
use pepperbus.Redis.Wire.{Server, Result, ok, err}

abbrev pub separator : Text
separator = codes ",,,,"

-- `strings.Split` at the separator; the number counts the bytes of a separator still to be skipped.
unfoldable pub split_fields : ℕ → Text → List Text
unfolding has_prefix
split_fields k [] = [] ∷ []
split_fields (suc k) (c ∷ s) = split_fields k s
split_fields zero (c ∷ s) =
    let behind = split_fields 3 s in
    let later = split_fields zero s in
    if has_prefix (c ∷ s) separator then [] ∷ behind else add_front c later

unfoldable pub task_key : Text → Text
task_key q = codes "TD:" ++ q

unfoldable pub error_key : Text → Text → Text
error_key q t = codes "EC:" ++ (q ++ (codes ":" ++ t))

unfoldable pub task_info : Text → Text → Text
task_info now task = now ++ (separator ++ task)

-- The record of an error; the last field is there where the error is.
unfoldable pub error_info : Text → Text → Text → Text → Text → Text → Option Text → Text
error_info now jobs code error_code body host message =
    now
    ++ (separator
        ++ (jobs
            ++ (separator
                ++ (code
                    ++ (separator
                        ++ (error_code
                            ++ (separator
                                ++ (body
                                    ++ (codes " ------ [Host] " ++ (host ++ last message))))))))))
  where
    last : Option Text → Text
    last none = []
    last (some e) = separator ++ e

pub record TaskDebugData : Type 0 where
  pub time : Text
  pub jobs : Text

pub record ErrorCollectionData : Type 0 where
  pub time : Text
  pub jobs : Text
  pub sys_code : Text
  pub sys_error : Text
  pub user_code : Text
  pub user_msg : Text

-- The records of a list that have two fields; the others, and those that are no bytes, are left out.
abbrev with_task : List Text → List TaskDebugData → List TaskDebugData
with_task (time ∷ jobs ∷ []) rest = record { time = time; jobs = jobs } ∷ rest
with_task fields rest = rest

unfoldable pub read_tasks : List (Option Text) → List TaskDebugData
unfolding split_fields
read_tasks [] = []
read_tasks (none ∷ values) = read_tasks values
read_tasks (some v ∷ values) = with_task (split_fields zero v) (read_tasks values)

abbrev with_error : List Text → List ErrorCollectionData → List ErrorCollectionData
with_error (time ∷ jobs ∷ code ∷ user_code ∷ msg ∷ []) rest =
    record {
      time = time;
      jobs = jobs;
      sys_code = code;
      sys_error = [];
      user_code = user_code;
      user_msg = msg;
    }
    ∷ rest
with_error (time ∷ jobs ∷ code ∷ user_code ∷ msg ∷ error ∷ []) rest =
    record {
      time = time;
      jobs = jobs;
      sys_code = code;
      sys_error = error;
      user_code = user_code;
      user_msg = msg;
    }
    ∷ rest
with_error fields rest = rest

unfoldable pub read_errors : List (Option Text) → List ErrorCollectionData
unfolding split_fields
read_errors [] = []
read_errors (none ∷ values) = read_errors values
read_errors (some v ∷ values) = with_error (split_fields zero v) (read_errors values)

-- The last index that is read: ten records, where no positive number is asked for.
abbrev pub last_index : ℤ → ℕ
last_index n = if leb_ℤ n (pos 0) then 9 else pos_part n - 1

module _ (server : Server) where
  open server use {Store}

  abbrev pub trimmed : Text → Result ℤ → Store → Store
  trimmed key (err e) s = s
  trimmed key (ok count) s =
      let s' = (Redis.ltrim server key 0 50 s).1 in if leb_ℤ (pos 100) count then s' else s

  -- `AddTask`.
  unfoldable pub add_task : Bool → Text → Text → Text → Store → Store
  unfolding task_info task_key
  add_task false q now task s = s
  add_task true q now task s =
      let key = task_key q in
      let s1 = (Redis.lpush server key (task_info now task ∷ []) s).1 in
      let (count, s2) = Redis.llen server key s1 in trimmed key count s2

  abbrev pub tasks_of : Result (List (Option Text)) → Option (List TaskDebugData)
  tasks_of (err e) = none
  tasks_of (ok values) = some (read_tasks values)

  -- `GetTask`: `none` is nil.
  unfoldable pub get_task : Bool → Text → ℤ → Store → Option (List TaskDebugData)
  unfolding task_key read_tasks
  get_task false q n s = none
  get_task true q n s = tasks_of (Redis.lrange server (task_key q) 0 (last_index n) s).0

  -- `AddError`.
  unfoldable pub add_error :
      Bool → Text → Text → Text → Text → Text → Text → Text → Text → Option Text → Store → Store
  unfolding error_info error_key
  add_error false q t now jobs code error_code body host message s = s
  add_error true q t now jobs code error_code body host message s =
      (Redis.lpush server (error_key q t)
        (error_info now jobs code error_code body host message ∷ []) s).1

  abbrev errors_of : Result (List (Option Text)) → Option (List ErrorCollectionData)
  errors_of (err e) = none
  errors_of (ok values) = some (read_errors values)

  -- `GetError`: `none` is nil.
  unfoldable pub get_error : Bool → Text → Text → ℤ → Store → Option (List ErrorCollectionData)
  unfolding error_key read_errors
  get_error false q t n s = none
  get_error true q t n s = errors_of (Redis.lrange server (error_key q t) 0 (last_index n) s).0
