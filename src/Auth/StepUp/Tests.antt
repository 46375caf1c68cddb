-- ===== src/Auth/StepUp/Tests.antt =====
-- A cache that answers what was set last and forgets nothing, over one login of one user.
use raycarwash_project.Base.{
  ℕ, ◌≡◌, refl, inl, inr, some, none, [], ◌∷◌, arith, ◌==◌, if◌then◌else◌, Bool-cases, eq_of_test,
}
use raycarwash_project.Store.{ok, err, http}
use raycarwash_project.Auth.StepUp.{
  Reply, missing, text, RedisClient, StepUpState, mark_step_up, is_step_up_recent, require_step_up,
}
use raycarwash_project.Auth.StepUp.Recent.{Mark, Keeps, mark_all, require_step_up-mark_all}

abbrev remembers : RedisClient (ℕ → Reply)
remembers = record {
  set = λ user value seconds r asked. if asked == user then text value else r asked;
  get = λ now asked r. r asked;
}

remembers-Keeps : Keeps remembers
remembers-Keeps now user value seconds asked t r h = elim (Bool-cases (asked == user)) [
  | inl e ↦ inl (eq_of_test asked user e, ground (arith, rw e at h))
  | inr e ↦ inr (rw e at h)
]

abbrev nobody : StepUpState (ℕ → Reply)
nobody = record { redis = some (λ _. missing); last_step_up_at = λ _. none }

-- Redis is down: nothing is kept, and the column alone answers
abbrev without_redis : StepUpState (ℕ → Reply)
without_redis = record { redis = none; last_step_up_at = λ _. none }

abbrev login : Mark
login = record { user = 7; time = 1000000 }

down_test :
    require_step_up remembers 5 2000000 7 (mark_step_up remembers 5 1000000 7 without_redis) ≡ ok 7
unfolding require_step_up is_step_up_recent mark_step_up
down_test = refl

-- exactly five minutes after the login is too late
late_test :
    require_step_up remembers 5 301000000 7 (mark_step_up remembers 5 1000000 7 nobody)
    ≡ err (http 401)
unfolding require_step_up is_step_up_recent mark_step_up
late_test = refl

require_step_up-mark_all_example :
    require_step_up remembers 5 300999999 7 (mark_all remembers 5 (login ∷ []) nobody) ≡ ok 7
require_step_up-mark_all_example =
    require_step_up-mark_all remembers 5 300999999 7 (login ∷ []) nobody remembers-Keeps
      (λ now user t h. ground (arith, h), λ user. refl) (omega arith, tt)
