-- ===== src/Providers/Application/Steps.antt =====
-- The requests about applications, in sequences.
use Prim.Native.String.{String}
use raycarwash_project.Base.{ℕ, Bool, List, [], ◌∷◌}
use raycarwash_project.Store.{Result, ok, err}
use raycarwash_project.Providers.Application.{ApplicationDb, ActivateRequest, activate}
use raycarwash_project.Providers.Application.Requests.{
  UpdateRequest, update, deactivate, set_accepting_bookings, submit_application,
}
use raycarwash_project.Providers.Application.Decisions.{
  approve_detailer, suspend_detailer, approve_verification, reject_verification,
}

pub data ApplicationStep : Type 0 where
  activates : (user : ℕ) → ActivateRequest → ApplicationStep
  updates : (user : ℕ) → UpdateRequest → ApplicationStep
  deactivates : (user : ℕ) → ApplicationStep
  sets_accepting : (user : ℕ) → (accepting : Bool) → ApplicationStep
  submits : (now user : ℕ) → ApplicationStep
  approves suspends : (now id actor : ℕ) → String → ApplicationStep
  verifies rejects : (now id actor : ℕ) → String → ApplicationStep

-- get_db around a request
abbrev pub transact : Result (Unit {0}) × ApplicationDb → ApplicationDb → ApplicationDb
transact (ok u, after) before = after
transact (err e, after) before = before

abbrev pub serve : ApplicationStep → ApplicationDb → ApplicationDb
serve (activates user body) d = transact (activate user body d) d
serve (updates user body) d = transact (update user body d) d
serve (deactivates user) d = transact (deactivate user d) d
serve (sets_accepting user accepting) d = transact (set_accepting_bookings user accepting d) d
serve (submits now user) d = transact (submit_application now user d) d
serve (approves now id actor note) d = transact (approve_detailer now id actor d) d
serve (suspends now id actor reason) d = transact (suspend_detailer now id actor reason d) d
serve (verifies now id actor note) d = transact (approve_verification now id actor d) d
serve (rejects now id actor reason) d = transact (reject_verification now id actor reason d) d

abbrev pub serve_all : List ApplicationStep → ApplicationDb → ApplicationDb
serve_all [] d = d
serve_all (a ∷ rest) d = serve_all rest (serve a d)
