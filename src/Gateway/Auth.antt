-- ===== src/Gateway/Auth.antt =====
-- gateway.go, `auth` and `checkAuth`: what a login may do.
use pepperbus.Base.{
  ◌≡◌, ◌≢◌, ◌↔◌, refl, ap, sym, subst, ◌∙◌, List, [], ◌∷◌, Bool, true, false, arith, if◌then◌else◌,
  inl, inr, Bool-cases, Option, none, some,
}
use mathlib.Core.Option.{some-injective}
use pepperbus.Base.Text.{Text, split, text_eq, text_eq_iff, text_eq_refl}
use pepperbus.Base.Map.{Map, lookup, is_some}
use pepperbus.Config.{QueueConfig, TopicConfig}
use pepperbus.Job.Parse.{slash}
use pepperbus.Base.Split.{Without, split-append, split_single}
use pepperbus.Gateway.{
  Login, named, refused, full_name, check_auth, accepts, has_password, queue_accepts, login_names,
  login, auth, colon, Reply, okay, failure, invalid_password,
}

login_names_lem :
    (q t : Text)
    → Without slash q
    → Without slash t
    → login_names (split slash (full_name q t)) ≡ (q, t)
unfolding full_name
login_names_lem q [] hq ht = rw (split_single slash q hq) refl
login_names_lem q (c ∷ t) hq ht =
    rw (split-append slash q (c ∷ t) hq, split_single slash (c ∷ t) ht) refl

check_auth_named : (v q t : Text) → q ≢ [] → check_auth (named v) q t ≡ text_eq (full_name q t) v
unfolding check_auth
check_auth_named v [] t h = absurd (h refl)
check_auth_named v (c ∷ q) t h = ground arith

if_login :
    (b : Bool) (name : Text)
    → (if◌then◌else◌ {A = Reply × Login} b (okay, named name) (failure invalid_password, refused)).1
      ≡ (if b then named name else refused)
if_login true name = refl
if_login false name = refl

check_auth-refused : (q t : Text) → check_auth refused q t ≢ true
unfolding check_auth
check_auth-refused q t h = ground (arith, h)

-- The password of a queue, or of one of its topics.
abbrev pub HasPassword : QueueConfig → Text → Text → Type 0
HasPassword queue [] password = queue.password ≡ password
HasPassword queue (c ∷ t) password =
    (topic : TopicConfig) × (lookup (c ∷ t) queue.topic ≡ some topic) × (topic.password ≡ password)

-- The password of a configured queue, or of one of its configured topics.
abbrev pub Password : Map QueueConfig → Text → Text → Text → Type 0
Password confs q t password =
    (queue : QueueConfig) × (lookup q confs ≡ some queue) × HasPassword queue t password

contradiction {ℓ} : {A : Type ℓ} (o : Option A) (x : A) → o ≡ none → o ≡ some x → false ≡ true
contradiction o x e f = cc (ap is_some (sym e ∙ f))

has_password_lem :
    (o : Option TopicConfig) (password : Text)
    → (has_password o password ≡ true)
      ↔ ((topic : TopicConfig) × (o ≡ some topic) × (topic.password ≡ password))
has_password_lem none password =
    (λ e. absurd (cc e), λ (topic, e, same). contradiction none topic refl e)
has_password_lem (some topic) password = (
  λ e. (topic, refl, (text_eq_iff topic.password password).0 e),
  λ (other, e, same).
      (text_eq_iff topic.password password).1
        (ap TopicConfig.password (some-injective _ _ e) ∙ same),
)

queue_accepts_lem :
    (o : Option QueueConfig) (t password : Text)
    → (queue_accepts o t password ≡ true)
      ↔ ((queue : QueueConfig) × (o ≡ some queue) × HasPassword queue t password)
queue_accepts_lem none t password =
    (λ e. absurd (cc e), λ (queue, e, has). contradiction none queue refl e)
queue_accepts_lem (some queue) [] password = (
  λ e. (queue, refl, (text_eq_iff queue.password password).0 e),
  λ (other, e, has).
      (text_eq_iff queue.password password).1
        (ap QueueConfig.password (some-injective _ _ e) ∙ has),
)
queue_accepts_lem (some queue) (c ∷ t) password =
    let (sound, complete) = has_password_lem (lookup (c ∷ t) queue.topic) password in
    (
      λ e. (queue, refl, sound e),
      λ (other, e, has). complete (
          subst (λ (w : QueueConfig). HasPassword w (c ∷ t) password) (sym (some-injective _ _ e))
            has),
    )

-- The gateway accepts the passwords that are configured.
pub accepts_lem :
    (confs : Map QueueConfig) (q t password : Text)
    → (accepts confs q t password ≡ true) ↔ Password confs q t password
unfolding accepts
accepts_lem confs q t password = queue_accepts_lem (lookup q confs) t password

module _ (confs : Map QueueConfig) where
  login_lem :
      (name password : Text) (more : List Text) (q t : Text)
      → login_names (split slash name) ≡ (q, t)
      → (login confs (name ∷ password ∷ more)).1
        ≡ (if accepts confs q t password then named name else refused)
  unfolding login
  login_lem name password more q t e = rw (e) (if_login (accepts confs q t password) name)

  abbrev Granted : List Text → Text → Text → Type 0
  Granted fields q t =
      (password : Text) × (more : List Text) × (fields ≡ full_name q t ∷ password ∷ more)
      × Password confs q t password

  login_complete :
      (fields : List Text) (q t : Text)
      → Without slash q
      → Without slash t
      → q ≢ []
      → Granted fields q t
      → check_auth (login confs fields).1 q t ≡ true
  login_complete fields q t hq ht hn (password, more, e, ok) =
      let names = login_names_lem q t hq ht in
      subst (λ fields. check_auth (login confs fields).1 q t ≡ true) (sym e)
        (rw
          (login_lem (full_name q t) password more q t names, (accepts_lem confs q t password).1 ok)
          (check_auth_named (full_name q t) q t hn ∙ text_eq_refl (full_name q t)))

  login_sound :
      (fields : List Text) (q t : Text)
      → Without slash q
      → Without slash t
      → q ≢ []
      → check_auth (login confs fields).1 q t ≡ true
      → Granted fields q t
  unfolding login
  login_sound [] q t hq ht hn h = absurd (check_auth-refused q t h)
  login_sound (name ∷ []) q t hq ht hn h = absurd (check_auth-refused q t h)
  login_sound (name ∷ password ∷ more) q t hq ht hn h =
      let (q', t') = login_names (split slash name) in
      let answer = login_lem name password more q' t' refl in
      elim (Bool-cases (accepts confs q' t' password)) [
        | inl hit ↦
            let known = subst (λ w. check_auth w q t ≡ true) (answer ∙ rw hit refl) h in
            let same =
              (text_eq_iff (full_name q t) name).0 (sym (check_auth_named name q t hn) ∙ known) in
            let names =
              ap (λ n. login_names (split slash n)) (sym same) ∙ login_names_lem q t hq ht in
            (
              password,
              more,
              ap (λ n. n ∷ password ∷ more) (sym same),
              subst (λ (p : Text × Text). Password confs p.0 p.1 password) names
                  ((accepts_lem confs q' t' password).0 hit),
            )
        | inr miss ↦ absurd (
            check_auth-refused q t (subst (λ w. check_auth w q t ≡ true) (answer ∙ rw miss refl) h))
      ]

  -- After `auth`, a client may use the topic of a queue (or the queue, for an empty topic) exactly
  -- if the first argument was "name:password" (whatever comes behind a second ':'), where the name
  -- is that of the queue and the topic, the queue and the topic are configured, and the password is
  -- the topic's (the queue's, for an empty topic). (For names without '/', and a queue's name that is not empty.)
  pub auth_lem :
      (arg : Text) (args : List Text) (before : Login) (q t : Text)
      → Without slash q
      → Without slash t
      → q ≢ []
      → (check_auth (auth confs (arg ∷ args) before).1 q t ≡ true) ↔ (
          (password : Text) × (more : List Text) × (split colon arg
            ≡ full_name q t ∷ password ∷ more)
          × Password confs q t password)
  unfolding auth
  auth_lem arg args before q t hq ht hn =
      (login_sound (split colon arg) q t hq ht hn, login_complete (split colon arg) q t hq ht hn)
