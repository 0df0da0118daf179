-- ===== src/Storage/Key.antt =====
-- storage.go, mux.go: the kinds of queue and the name of a queue's list (`GetKey`).
use pepperbus.Base.{[], ◌∷◌, ◌≡◌, refl, arith, ◌++◌, Bool, true, false}
use pepperbus.Base.Text.{Text, codes, text_eq}

pub data QueueTyp : Type 0 where
  common_queue retry_queue timeout_queue : QueueTyp

abbrev pub is_retry_queue : QueueTyp → Bool
is_retry_queue common_queue = false
is_retry_queue retry_queue = true
is_retry_queue timeout_queue = false

abbrev pub is_timeout_queue : QueueTyp → Bool
is_timeout_queue common_queue = false
is_timeout_queue retry_queue = false
is_timeout_queue timeout_queue = true

-- What stands behind the last "::".
abbrev pub list_name : QueueTyp → Text
list_name common_queue = codes "list"
list_name retry_queue = codes "list_retry"
list_name timeout_queue = codes "list_timeout"

unfoldable pub get_key : Text → Text → QueueTyp → Text
get_key qn tn typ = qn ++ (codes "::" ++ (tn ++ (codes "::" ++ list_name typ)))

-- The list names tell the kinds apart.
pub append_cancel : (xs : Text) (ys zs : Text) → text_eq (xs ++ ys) (xs ++ zs) ≡ text_eq ys zs
unfolding text_eq
append_cancel [] ys zs = refl
append_cancel (x ∷ xs) ys zs = ground (arith, append_cancel xs ys zs)

pub retry-ne-common :
    (q t : Text) → text_eq (get_key q t retry_queue) (get_key q t common_queue) ≡ false
unfolding get_key
retry-ne-common q t =
    rw (append_cancel q _ _, append_cancel (codes "::") _ _, append_cancel t _ _)
      (unfold text_eq in refl)

abbrev pub Differ : QueueTyp → QueueTyp → Type 0
Differ a b = text_eq (list_name a) (list_name b) ≡ false

-- The three lists of a topic have different names.
pub get_key-Differ :
    (q t : Text) (a b : QueueTyp) → Differ a b → text_eq (get_key q t a) (get_key q t b) ≡ false
unfolding get_key
get_key-Differ q t a b h =
    rw (append_cancel q _ _, append_cancel (codes "::") _ _, append_cancel t _ _)
      (rw (append_cancel (codes "::") (list_name a) (list_name b)) h)
