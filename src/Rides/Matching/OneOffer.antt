-- ===== src/Rides/Matching/OneOffer.antt =====
-- At any time a ride is offered to one detailer at most, however requests, timeouts and the loop's
-- steps interleave; and only while the loop asks that detailer.
use raycarwash_project.Base.{
  ℕ, ◌≤◌, ◌≡◌, refl, sym, subst, inl, inr, Bool, Option, none, some, List, arith, false,
  Option-cases, All, count_where, All-count_none,
}
use raycarwash_project.Rides.{
  AssignmentStatus, accepted, declined, timeout, AppointmentAssignment, Response, said_accepted,
  said_declined, Rides, is_offered,
}
use raycarwash_project.Rides.Matching.{accept_write, decline_write, signal, mark_no_detailer}
use raycarwash_project.Rides.Matching.Run.{
  Pc, choosing, published, waiting, timed_out, finished, System, start, after_response, respond,
  Step, locked_out, offer, crash, register, wake, expire, record_timeout, exhausted, lock_expires,
  seek, seek_offer, accept, seek_refusal, decline, deliver, Reach, here, later,
}
use raycarwash_project.Rides.Matching.Rows.{
  open_for, Mine, Closed, answered, Closed-answered, count-answered, Mine-answered, Mine-Closed,
  make_offer-Mine, make_offer_err,
}

module _ (a : ℕ) where
  -- The open offers where the loop is.
  abbrev Asked : ℕ → ℕ → List AppointmentAssignment → Type 0
  Asked i d rows = All (Mine a i d) rows × (count_where (open_for a) rows ≤ 1)

  abbrev pub OpenAt : Pc → List AppointmentAssignment → Type 0
  OpenAt (choosing _) rows = Closed a rows
  OpenAt (published i d _) rows = Asked i d rows
  OpenAt (waiting i d _) rows = Asked i d rows
  OpenAt (timed_out i d _) rows = Asked i d rows
  OpenAt finished rows = count_where (open_for a) rows ≤ 1

  OpenAt-answered :
      (pc : Pc) (status : AssignmentStatus) (i now : ℕ) (rows : List AppointmentAssignment)
      → is_offered status ≡ false
      → OpenAt pc rows
      → OpenAt pc (answered i status now rows)
  OpenAt-answered (choosing _) status i now rows shut h = Closed-answered a status shut i now rows h
  OpenAt-answered (published j d _) status i now rows shut (mine, one) = (
    Mine-answered a status shut i now j d rows mine,
    omega (arith, count-answered a status shut i now rows),
  )
  OpenAt-answered (waiting j d _) status i now rows shut (mine, one) = (
    Mine-answered a status shut i now j d rows mine,
    omega (arith, count-answered a status shut i now rows),
  )
  OpenAt-answered (timed_out j d _) status i now rows shut (mine, one) = (
    Mine-answered a status shut i now j d rows mine,
    omega (arith, count-answered a status shut i now rows),
  )
  OpenAt-answered finished status i now rows shut h =
      omega (arith, count-answered a status shut i now rows)

  pub signal-assignments :
      (d : ℕ) (response : Response) (s : Rides)
      → (signal a d response s).assignments ≡ s.assignments
  unfolding signal
  signal-assignments d response s = elim (Option-cases (s.events a d)) [
    | inl n ↦ rw (n, signal) refl
    | inr (b, e) ↦ rw (e, signal) refl
  ]

  after_response-OpenAt :
      (o : Option Response) (now i d : ℕ) (rest : List ℕ) (s : Rides)
      → Asked i d s.assignments
      → OpenAt
          (after_response a o now i d rest s).1
          (after_response a o now i d rest s).0.assignments
  after_response-OpenAt (some said_accepted) now i d rest s (mine, one) = one
  after_response-OpenAt (some said_declined) now i d rest s (mine, one) =
      Mine-Closed a declined refl i now d s.assignments mine
  after_response-OpenAt none now i d rest s (mine, one) =
      Mine-Closed a declined refl i now d s.assignments mine

  respond-OpenAt :
      (now i d : ℕ) (rest : List ℕ) (s : Rides)
      → Asked i d s.assignments
      → OpenAt (respond a now i d rest s).1 (respond a now i d rest s).0.assignments
  unfolding respond
  respond-OpenAt now i d rest s h = after_response-OpenAt (s.responses a d) now i d rest s h

  Step-OpenAt :
      (late : Bool) (s t : System)
      → Step a late s t
      → OpenAt s.pc s.rides.assignments
      → OpenAt t.pc t.rides.assignments
  unfolding mark_no_detailer accept_write decline_write
  Step-OpenAt late s t (locked_out _) h = h
  Step-OpenAt late s t (offer {s = r} {s' = r'} {d = d} {id = i} now _ made) h =
      make_offer-Mine a d now i r r' made h
  Step-OpenAt late s t (crash {s = r} {s' = r'} {d = d} {e = e} now _ failed) h =
      subst (λ rows. count_where (open_for a) rows ≤ 1)
        (sym (make_offer_err a d now r r' e failed).0)
        (omega (arith, All-count_none (open_for a) r.assignments h))
  Step-OpenAt late s t register h = h
  Step-OpenAt late s t (wake {s = r} {id = i} {d = d} {rest = rest} now _) h =
      respond-OpenAt now i d rest r h
  Step-OpenAt late s t (expire _ _) h = h
  Step-OpenAt late s t (record_timeout {s = r} {id = i} {d = d} now) h =
      Mine-Closed a timeout refl i now d r.assignments h.0
  Step-OpenAt late s t (exhausted {s = r}) h =
      omega (arith, All-count_none (open_for a) r.assignments h)
  Step-OpenAt late s t lock_expires h = h
  Step-OpenAt late s t (seek _ _) h = h
  Step-OpenAt late s t (seek_offer _ _ _ _ _) h = h
  Step-OpenAt late s t (accept {s = r} {pc = pc} _ _ d i price now) h =
      OpenAt-answered pc accepted i now r.assignments refl h
  Step-OpenAt late s t (seek_refusal _ _) h = h
  Step-OpenAt late s t (decline {s = r} {pc = pc} _ _ d i now) h =
      OpenAt-answered pc declined i now r.assignments refl h
  Step-OpenAt late s t (deliver {s = r} {pc = pc} ps qs d response) h =
      subst (OpenAt pc) (sym (signal-assignments d response r)) h

  pub Reach-OpenAt :
      (late : Bool) (from s : System)
      → OpenAt from.pc from.rides.assignments
      → Reach a late from s
      → OpenAt s.pc s.rides.assignments
  Reach-OpenAt late from s h here = h
  Reach-OpenAt late from s h (later {s = r} past step) =
      Step-OpenAt late r s step (Reach-OpenAt late from r h past)

  at_most_one :
      (pc : Pc) (rows : List AppointmentAssignment)
      → OpenAt pc rows
      → count_where (open_for a) rows ≤ 1
  at_most_one (choosing _) rows h = omega (arith, All-count_none (open_for a) rows h)
  at_most_one (published _ _ _) rows h = h.1
  at_most_one (waiting _ _ _) rows h = h.1
  at_most_one (timed_out _ _ _) rows h = h.1
  at_most_one finished rows h = h

-- A run that starts with no open offer of the ride never has two of them at a time: whatever the
-- candidates, the answers and the timeouts, and in whatever order they come.
pub one_offer_at_a_time :
    (a : ℕ) (late : Bool) (r : Rides) (ranked : List ℕ) (s : System)
    → Closed a r.assignments
    → Reach a late (start r ranked) s
    → count_where (open_for a) s.rides.assignments ≤ 1
one_offer_at_a_time a late r ranked s closed run =
    at_most_one a s.pc s.rides.assignments (Reach-OpenAt a late (start r ranked) s closed run)
