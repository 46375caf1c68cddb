-- ===== src/Auth/StepUp.antt =====
-- backend/app/core/step_up.py. Redis is a parameter: what a SET leaves, whether it raised or not, and
-- what a GET answers. The settings' STEP_UP_TTL_MINUTES is `minutes`, a datetime its microseconds, so
-- `ts > now - window` reads `now < ts + window`.
mod Recent
mod Tests
use raycarwash_project.Base.{
  ℕ, ◌+◌, ◌*◌, Bool, true, false, Option, none, some, ◌==◌, ltb, if◌then◌else◌,
}
use raycarwash_project.Store.{Error, http, Result, ok, err}

-- The answer of a GET: a text is the datetime that it parses to, anything else that is no datetime is
-- `unreadable`.
pub data Reply : Type 0 where
  raised missing unreadable : Reply
  text : ℕ → Reply

-- `set user value seconds` and `get now user`
pub record RedisClient (R : Type 0) : Type 0 where
  pub set : ℕ → ℕ → ℕ → R → R
  pub get : ℕ → ℕ → R → Reply

-- request.app.state.redis and the column User.last_step_up_at
pub record StepUpState (R : Type 0) : Type 0 where
  pub redis : Option R
  pub last_step_up_at : ℕ → Option ℕ

-- _step_up_window
abbrev pub step_up_window : ℕ → ℕ
step_up_window minutes = minutes * 60000000

abbrev pub later_than_threshold : ℕ → ℕ → ℕ → Bool
later_than_threshold minutes now ts = ltb now (ts + step_up_window minutes)

abbrev pub recent_in_cache : ℕ → ℕ → Reply → Bool
recent_in_cache minutes now (text ts) = later_than_threshold minutes now ts
recent_in_cache minutes now _ = false

abbrev pub recent_in_column : ℕ → ℕ → Option ℕ → Bool
recent_in_column minutes now (some ts) = later_than_threshold minutes now ts
recent_in_column minutes now none = false

module _ {R : Type 0} (client : RedisClient R) where
  abbrev pub get_cached : ℕ → ℕ → Option R → Reply
  get_cached now user none = missing
  get_cached now user (some r) = client.get now user r

module _ {R : Type 0} (client : RedisClient R) (minutes : ℕ) where
  abbrev pub set_cached : ℕ → ℕ → Option R → Option R
  set_cached now user none = none
  set_cached now user (some r) = some (client.set user now (minutes * 60) r)

  unfoldable pub mark_step_up : ℕ → ℕ → StepUpState R → StepUpState R
  mark_step_up now user s = record {
    redis = set_cached now user s.redis;
    last_step_up_at = λ u. if u == user then some now else s.last_step_up_at u;
  }

  unfoldable pub is_step_up_recent : ℕ → ℕ → StepUpState R → Bool
  is_step_up_recent now user s =
      if recent_in_cache minutes now (get_cached client now user s.redis)
      then true
      else recent_in_column minutes now (s.last_step_up_at user)

  -- after get_current_user
  unfoldable pub require_step_up : ℕ → ℕ → StepUpState R → Result ℕ
  require_step_up now user s = if is_step_up_recent now user s then ok user else err (http 401)
