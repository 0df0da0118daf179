-- ===== src/Redis/Commands/Scripts/Slots.antt =====
-- commands.go, EVAL: the slice of the arguments is made for the number of keys that is given.
use pepperbus.Base.{
  ℕ, zero, suc, ◌+◌, ◌-◌, ◌≡◌, refl, ap, ◌∙◌, List, [], ◌∷◌, ◌++◌, Bool, true, false, none, some,
  length, length-append, ltb, arith, if◌then◌else◌,
}
use pepperbus.Base.Int.{pos}
use pepperbus.Base.Text.{Text, codes}
use pepperbus.Redis.Resp.{Arg, arg_int, arg_text, arg_nil}
use pepperbus.Redis.Commands.{Conn, panics, reply_with, any_reply, texts}
use pepperbus.Redis.Commands.Scripts.{placed, fill, run, eval}

abbrev pub nils : ℕ → List Arg
nils zero = []
nils (suc n) = arg_nil ∷ nils n

fill-nils : (room : ℕ) → fill room [] ≡ some (nils room)
unfolding fill
fill-nils zero = refl
fill-nils (suc room) = ap (placed arg_nil) (fill-nils room)

ltb-suc : (m n : ℕ) → ltb (suc m) (suc n) ≡ ltb m n
ltb-suc m n = ground arith

sub_suc : (m n : ℕ) → suc m - suc n ≡ m - n
sub_suc m n = omega arith

placed-if :
    (full : Bool) (a : Arg) (args : List Arg)
    → placed a (if full then none else some args) ≡ (if full then none else some (a ∷ args))
placed-if true a args = refl
placed-if false a args = refl

fill_lem :
    (room : ℕ) (args : List Arg)
    → fill room args
      ≡ (if ltb room (length args) then none else some (args ++ nils (room - length args)))
unfolding fill
fill_lem room [] =
    let enough : ltb room 0 ≡ false = ground arith in
    let whole : room - 0 ≡ room = omega arith in rw (enough, whole) (fill-nils room)
fill_lem zero (a ∷ args) =
    let full : ltb 0 (suc (length args)) ≡ true = ground arith in rw full refl
fill_lem (suc room) (a ∷ args) =
    rw (ltb-suc room (length args), sub_suc room (length args))
      (ap (placed a) (fill_lem room args) ∙ placed-if (ltb room (length args)) a _)

length-texts : (keys : List Text) → length (texts keys) ≡ length keys
length-texts [] = refl
length-texts (k ∷ keys) = ap suc (length-texts keys)

run-if :
    (conn : Conn) (script : Text) (n : ℕ) (args : List Arg) (full : Bool) (s : conn.Store)
    → run conn (codes "EVAL") script (pos n) (if full then none else some args) s ≡ (
        if full
        then (panics, s)
        else reply_with any_reply
            (conn.call_n (codes "EVAL") (arg_text script ∷ arg_int (pos n) ∷ args) s))
run-if conn script n args true s = refl
run-if conn script n args false s = refl

-- EVAL with a number of keys (not negative) below that of the keys panics; otherwise it sends the
-- script, the number, the keys and the arguments, and behind them an empty argument for every key
-- that is missing.
pub eval_lem :
    (conn : Conn) (script : Text) (n : ℕ) (keys args : List Text) (s : conn.Store)
    → eval conn script (pos n) keys args s ≡ (
        if ltb n (length keys)
        then (panics, s)
        else reply_with any_reply (
            conn.call_n
              (codes "EVAL")
              (arg_text script ∷ arg_int (pos n) ∷ (texts (keys ++ args) ++ nils (n - length keys)))
              s))
unfolding eval
eval_lem conn script n keys args s =
    let total : length (texts (keys ++ args)) ≡ length keys + length args =
      length-texts (keys ++ args) ∙ length-append keys args in
    let full : ltb (n + length args) (length keys + length args) ≡ ltb n (length keys) =
      ground arith in
    let left : (n + length args) - (length keys + length args) ≡ n - length keys = omega arith in
    ap (λ slots. run conn (codes "EVAL") script (pos n) slots s)
      (fill_lem (n + length args) (texts (keys ++ args)))
    ∙ rw (total, full, left) (run-if conn script n _ (ltb n (length keys)) s)
