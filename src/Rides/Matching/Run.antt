-- ===== src/Rides/Matching/Run.antt =====
-- One run of the loop `assign` for one ride, interleaved with the requests of its candidates. A step
-- is what happens between two awaits that matter: a commit of the loop, a query of a request, its
-- commit, and its signal after that. A commit writes by the keys that the queries read, whatever the
-- tables hold by then. In a run where `late` is false no offer times out.
use raycarwash_project.Base.{ℕ, Bool, true, false, Option, some, List, [], ◌∷◌, ◌++◌, ◌≡◌, take}
use raycarwash_project.Store.{Error, ok, err}
use raycarwash_project.Rides.{declined, timeout, Response, said_accepted, said_declined, Rides}
use raycarwash_project.Rides.Matching.{
  max_candidates, answer, find_ride, find_offer, accept_write, decline_write, signal, make_offer,
  register_event, end_offer, pop_response, mark_no_detailer,
}

-- Where the loop is: before the next candidate; with an offer committed; waiting for its event;
-- after TimeoutError; at its end.
pub data Pc : Type 0 where
  choosing : List ℕ → Pc
  published : (id detailer : ℕ) → List ℕ → Pc
  waiting : (id detailer : ℕ) → List ℕ → Pc
  timed_out : (id detailer : ℕ) → List ℕ → Pc
  finished : Pc

-- A request between its queries and its commit: an acceptance that has found the ride, one that has
-- found the offer as well, and a refusal that has found the offer.
pub data Query : Type 0 where
  ride_found : (detailer price : ℕ) → Query
  accepting : (detailer id price : ℕ) → Query
  declining : (detailer id : ℕ) → Query

-- `in_flight`: the requests before their commit; `pending`: those that have committed and not
-- signalled yet.
pub record System : Type 0 where
  pub rides : Rides
  pub pc : Pc
  pub in_flight : List Query
  pub pending : List (ℕ × Response)

-- `ranked[:MAX_CANDIDATES]`
abbrev pub start : Rides → List ℕ → System
start s ranked = record {
  rides = s;
  pc = choosing (take max_candidates ranked);
  in_flight = [];
  pending = [];
}

module _ (appointment : ℕ) where
  -- what the loop does once its event is set
  abbrev pub after_response : Option Response → ℕ → ℕ → ℕ → List ℕ → Rides → Rides × Pc
  after_response (some said_accepted) now id detailer rest s =
      (end_offer appointment detailer (pop_response appointment detailer s), finished)
  after_response _ now id detailer rest s = (
    end_offer appointment detailer (answer id declined now (pop_response appointment detailer s)),
    choosing rest,
  )

  unfoldable pub respond : ℕ → ℕ → ℕ → List ℕ → Rides → Rides × Pc
  respond now id detailer rest s =
      after_response (s.responses appointment detailer) now id detailer rest s

  pub data Step (late : Bool) : System → System → Type 0 where
    -- `set(..., nx=True)` finds the lock
    locked_out :
        {s : Rides} {d : ℕ} {rest : List ℕ} {fs : List Query} {ps : List (ℕ × Response)}
        → s.locks appointment ≡ true
        → Step late
            (record { rides = s; pc = choosing (d ∷ rest); in_flight = fs; pending = ps })
            (record { rides = s; pc = choosing rest; in_flight = fs; pending = ps })
    offer :
        {s s' : Rides} {d id : ℕ} {rest : List ℕ} {fs : List Query} {ps : List (ℕ × Response)}
        (now : ℕ)
        → s.locks appointment ≡ false
        → make_offer appointment d now s ≡ (ok id, s')
        → Step late
            (record { rides = s; pc = choosing (d ∷ rest); in_flight = fs; pending = ps })
            (record { rides = s'; pc = published id d rest; in_flight = fs; pending = ps })
    crash :
        {s s' : Rides} {d : ℕ} {rest : List ℕ} {fs : List Query} {ps : List (ℕ × Response)}
        {e : Error} (now : ℕ)
        → s.locks appointment ≡ false
        → make_offer appointment d now s ≡ (err e, s')
        → Step late
            (record { rides = s; pc = choosing (d ∷ rest); in_flight = fs; pending = ps })
            (record { rides = s'; pc = finished; in_flight = fs; pending = ps })
    register :
        {s : Rides} {id d : ℕ} {rest : List ℕ} {fs : List Query} {ps : List (ℕ × Response)}
        → Step late
            (record { rides = s; pc = published id d rest; in_flight = fs; pending = ps })
            (record {
              rides = register_event appointment d s;
              pc = waiting id d rest;
              in_flight = fs;
              pending = ps;
            })
    wake :
        {s : Rides} {id d : ℕ} {rest : List ℕ} {fs : List Query} {ps : List (ℕ × Response)}
        (now : ℕ)
        → s.events appointment d ≡ some true
        → Step late
            (record { rides = s; pc = waiting id d rest; in_flight = fs; pending = ps })
            (record {
              rides = (respond now id d rest s).0;
              pc = (respond now id d rest s).1;
              in_flight = fs;
              pending = ps;
            })
    -- the wait raises TimeoutError, and the loop writes TIMEOUT in a later step
    expire :
        {s : Rides} {id d : ℕ} {rest : List ℕ} {fs : List Query} {ps : List (ℕ × Response)}
        → late ≡ true
        → s.events appointment d ≡ some false
        → Step late
            (record { rides = s; pc = waiting id d rest; in_flight = fs; pending = ps })
            (record { rides = s; pc = timed_out id d rest; in_flight = fs; pending = ps })
    record_timeout :
        {s : Rides} {id d : ℕ} {rest : List ℕ} {fs : List Query} {ps : List (ℕ × Response)}
        (now : ℕ)
        → Step late
            (record { rides = s; pc = timed_out id d rest; in_flight = fs; pending = ps })
            (record {
              rides = end_offer appointment d (answer id timeout now s);
              pc = choosing rest;
              in_flight = fs;
              pending = ps;
            })
    exhausted :
        {s : Rides} {fs : List Query} {ps : List (ℕ × Response)}
        → Step late
            (record { rides = s; pc = choosing []; in_flight = fs; pending = ps })
            (record {
              rides = mark_no_detailer appointment s;
              pc = finished;
              in_flight = fs;
              pending = ps;
            })
    -- the lock has an expiry of its own
    lock_expires :
        {s : Rides} {pc : Pc} {fs : List Query} {ps : List (ℕ × Response)}
        → Step late
            (record { rides = s; pc = pc; in_flight = fs; pending = ps })
            (record {
              rides = record s { locks = λ a. false };
              pc = pc;
              in_flight = fs;
              pending = ps;
            })
    -- the queries of an acceptance
    seek :
        {s : Rides} {pc : Pc} {fs : List Query} {ps : List (ℕ × Response)} {price : ℕ} (d : ℕ)
        → find_ride appointment s ≡ ok price
        → Step late
            (record { rides = s; pc = pc; in_flight = fs; pending = ps })
            (record { rides = s; pc = pc; in_flight = ride_found d price ∷ fs; pending = ps })
    seek_offer :
        {s : Rides} {pc : Pc} {ps : List (ℕ × Response)} {id : ℕ} (fs gs : List Query) (d price : ℕ)
        → find_offer 409 appointment d s ≡ ok id
        → Step late
            (record { rides = s; pc = pc; in_flight = fs ++ ride_found d price ∷ gs; pending = ps })
            (record {
              rides = s;
              pc = pc;
              in_flight = fs ++ accepting d id price ∷ gs;
              pending = ps;
            })
    -- its commit
    accept :
        {s : Rides} {pc : Pc} {ps : List (ℕ × Response)} (fs gs : List Query) (d id price now : ℕ)
        → Step late
            (record {
              rides = s;
              pc = pc;
              in_flight = fs ++ accepting d id price ∷ gs;
              pending = ps;
            })
            (record {
              rides = accept_write appointment d id now s;
              pc = pc;
              in_flight = fs ++ gs;
              pending = (d, said_accepted) ∷ ps;
            })
    -- the query of a refusal, and its commit
    seek_refusal :
        {s : Rides} {pc : Pc} {fs : List Query} {ps : List (ℕ × Response)} {id : ℕ} (d : ℕ)
        → find_offer 404 appointment d s ≡ ok id
        → Step late
            (record { rides = s; pc = pc; in_flight = fs; pending = ps })
            (record { rides = s; pc = pc; in_flight = declining d id ∷ fs; pending = ps })
    decline :
        {s : Rides} {pc : Pc} {ps : List (ℕ × Response)} (fs gs : List Query) (d id now : ℕ)
        → Step late
            (record { rides = s; pc = pc; in_flight = fs ++ declining d id ∷ gs; pending = ps })
            (record {
              rides = decline_write id now s;
              pc = pc;
              in_flight = fs ++ gs;
              pending = (d, said_declined) ∷ ps;
            })
    deliver :
        {s : Rides} {pc : Pc} {fs : List Query} (ps qs : List (ℕ × Response)) (d : ℕ)
        (response : Response)
        → Step late
            (record { rides = s; pc = pc; in_flight = fs; pending = ps ++ (d, response) ∷ qs })
            (record {
              rides = signal appointment d response s;
              pc = pc;
              in_flight = fs;
              pending = ps ++ qs;
            })

  pub data Reach (late : Bool) (from : System) : System → Type 0 where
    here : Reach late from from
    later : {s t : System} → Reach late from s → Step late s t → Reach late from t
