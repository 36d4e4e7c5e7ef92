-- ===== src/RateLimit/Handlers.antt =====
-- api/internal/handler/rate_limit.go: the routes that read and change a user's caps.
use tts_platform.Common.{
  ℕ, ◌≡◌, refl, ◌⊎◌, inl, inr, Bool, true, false, Option, none, some, Bytes, codes, arith,
}
use tts_platform.Common.Results.{
  Error, Result, ok, err, no_rows, redis_nil, canceled, eof, failure, Result-cases,
}
use tts_platform.Numbers.{Numbers}
use tts_platform.Valkey.{Valkey, ValkeyLaws}
use tts_platform.RateLimit.Store.{
  Limits, LimitsJson, Store, World, effective, set_override, clear_override,
}
use tts_platform.RateLimit.Overrides.{ReadsBack, effective-set_override}

pub record RateLimitResponse : Type 0 where
  pub user_id : Bytes
  pub limits : Limits
  pub source : Bytes
  pub defaults : Bool

-- What a handler writes: the answer as JSON with status 200, or a status and a text.
pub data Reply : Type 0 where
  answer : RateLimitResponse → Reply
  error : ℕ → Bytes → Reply

abbrev pub bad_request : Reply
bad_request = error 400 (codes "bad request")

-- `err.Error()`
abbrev pub text_of : Error → Bytes
text_of no_rows = codes "no rows in result set"
text_of redis_nil = codes "redis: nil"
text_of canceled = codes "context canceled"
text_of eof = codes "EOF"
text_of (failure e) = e

abbrev pub source_of : Bool → Bytes
source_of true = codes "override"
source_of false = codes "default"

unfoldable pub reply_of : Bytes → Result (Limits × Bool) → Reply
reply_of user (err e) = error 500 (codes "error")
reply_of user (ok (l, override)) =
    answer (record { user_id = user; limits = l; source = source_of override; defaults = false })

-- `parse` is `uuid.Parse` of the path's parameter.
module _ (num : Numbers) (vk : Valkey) (json : LimitsJson) (s : Store) where
  unfoldable pub write_rate_limit : Bytes → World num vk → Reply × World num vk
  unfolding reply_of
  write_rate_limit user w = let (r, w') = effective num vk json s user w in (reply_of user r, w')

  -- `GetAccountRateLimit`, for the context's user
  unfoldable pub get_account_rate_limit : Option Bytes → World num vk → Reply × World num vk
  get_account_rate_limit none w = (error 401 (codes "unauthorized"), w)
  get_account_rate_limit (some user) w = write_rate_limit user w

  -- The three routes for operators; `user` is what `uuid.Parse` makes of the path.
  unfoldable pub admin_get_user_rate_limit : Option Bytes → World num vk → Reply × World num vk
  admin_get_user_rate_limit none w = (bad_request, w)
  admin_get_user_rate_limit (some user) w = write_rate_limit user w

  -- `req` is the decoded body.
  unfoldable pub admin_set_user_rate_limit :
      Option Bytes → Option Limits → World num vk → Reply × World num vk
  admin_set_user_rate_limit none req w = (bad_request, w)
  admin_set_user_rate_limit (some user) none w = (bad_request, w)
  admin_set_user_rate_limit (some user) (some l) w =
      let (r, w') = set_override num vk json s user l w in
      elim r [ err e ↦ (error 400 (text_of e), w') | ok _ ↦ write_rate_limit user w' ]

  unfoldable pub admin_delete_user_rate_limit : Option Bytes → World num vk → Reply × World num vk
  admin_delete_user_rate_limit none w = (bad_request, w)
  admin_delete_user_rate_limit (some user) w =
      let (r, w') = clear_override num vk json s user w in
      elim r [
        | err e ↦ (error 500 (codes "error"), w')
        | ok _ ↦ (
          answer (record {
            user_id = user;
            limits = s.defaults;
            source = codes "default";
            defaults = true;
          }),
          w',
        )
      ]

-- The reply to a request that sets caps either is an error, or it shows the user, the caps of the
-- request, and that they are an override.
admin_set_user_rate_limit-replies :
    (num : Numbers) (vk : Valkey) (laws : ValkeyLaws vk) (json : LimitsJson) (s : Store)
    → ReadsBack json
    → (user : Bytes) (l : Limits) (w : World num vk)
    → let r = (admin_set_user_rate_limit num vk json s (some user) (some l) w).0 in
      (r
        ≡ answer
            (record { user_id = user; limits = l; source = codes "override"; defaults = false }))
      ⊎ ((status : ℕ) × (body : Bytes) × (r ≡ error status body))
unfolding admin_set_user_rate_limit write_rate_limit reply_of
admin_set_user_rate_limit-replies num vk laws json s reads user l w =
    elim (Result-cases (set_override num vk json s user l w).0) [
      | inl (u, set) ↦ elim (effective-set_override num vk laws json s reads user l w set) [
        | inl said ↦ inl (rw (set, said, admin_set_user_rate_limit, write_rate_limit) refl)
        | inr (e, failed) ↦ inr (500, codes "error", ground arith)
      ]
      | inr (e, failed) ↦ inr (400, text_of e, ground arith)
    ]
